-- ===== src/Link/RoundTrip.antt =====
-- A frame that is sent is the packet that is received: what the receiver makes of the HDLC frame of a
-- packet's bytes, and the two ends of the link together.
use mynd_firmware.Prelude.{
  ℕ, ◌+◌, ◌≤◌, ◌<◌, ◌≡◌, refl, ap, ◌∙◌, Option, none, some, List, [], ◌∷◌, ◌++◌, append_assoc,
  arith, if◌then◌else◌, length, ltb,
}
use mynd_firmware.Prelude.Words.{u16_mod}
use mynd_firmware.Prelude.Memory.{load_range, store_range, load_range-store_range}
use mynd_firmware.Prelude.Int.{pos}
use mynd_firmware.Link.Packet.{
  PacketType, ack, protobuf, Codec, IsCodec, Config, LowLayer, data_state, packet_bytes,
}
use mynd_firmware.Link.Tx.{frame_delimiter, send_ack}
use mynd_firmware.Link.Rx.{
  complete, incomplete, process_received_byte, end_of_frame, actionslink_bt_ll_rx,
  reset_transport_state,
}
use mynd_firmware.Link.Escape.{escape, hdlc_frame}
use mynd_firmware.Link.TxLaws.{actionslink_bt_ll_tx-Sends, encoded_payload}
use mynd_firmware.Link.RxLaws.{bytes_of, bytes-cons, buffered, rx_data, rx_incomplete, rx_complete}
use mynd_firmware.Link.Checked.{
  received_message, Holds, length-packet_bytes, buffered-Holds, validate_lem, packet_of,
  acknowledged, decode_payload_lem, end_of_frame_lem,
}

-- No frame is being received.
pub record IsIdle (s : LowLayer) : Type 0 where
  pub at_data : s.state ≡ data_state
  pub none_received : s.received_data_length ≡ 0
  pub none_buffered : s.buffered_data_length ≡ 0

module _ {FromMcu ToMcu : Type 0} (codec : Codec FromMcu ToMcu) (config : Config) where
  opening_delimiter :
      (s : LowLayer)
      → s.received_data_length ≡ 0
      → process_received_byte codec config s frame_delimiter ≡ (incomplete, s)
  unfolding process_received_byte end_of_frame
  opening_delimiter s e = ground arith

  -- What a received frame leaves: the packet with the caller, the acknowledgement of a protobuf packet
  -- among the frames handed over if it fits the transmit buffer, and the receiver idle.
  pub record Received (s : LowLayer) (type : PacketType) (transaction_id : ℕ) (s' : LowLayer)
      : Type 0 where
    pub idle : IsIdle s'
    pub acks : s'.written ≡ elim type [
      | ack ↦ s.written
      | protobuf ↦
          let frame = hdlc_frame (packet_bytes ack 0 transaction_id []) in
          if ltb config.tx_buffer_size (length frame) then s.written else s.written ++ (frame ∷ [])
    ]

  acknowledged-Received :
      IsCodec codec
      → config.tx_buffer_size < u16_mod
      → (s s' : LowLayer) (type : PacketType) (transaction_id : ℕ) → s'.written ≡ s.written
      → Received s type transaction_id
          (reset_transport_state (acknowledged codec config s' type transaction_id))
  unfolding acknowledged reset_transport_state send_ack encoded_payload
  acknowledged-Received law small s s' ack transaction_id w = record {
    idle = record { at_data = refl; none_received = refl; none_buffered = refl };
    acks = w;
  }
  acknowledged-Received law small s s' protobuf transaction_id w =
      let sent =
        actionslink_bt_ll_tx-Sends law config s'
          (record {
            packet_type = ack;
            value = 0;
            transaction_id = transaction_id;
            p_payload = none;
          })
          [] small refl in
      record {
        idle = record { at_data = refl; none_received = refl; none_buffered = refl };
        acks = ground (arith, sent.frames, w);
      }

  -- Where the loop stands in front of the closing delimiter of a frame around `bs`.
  receive_body :
      (s : LowLayer) (bs : List ℕ) (input : List (ℕ × ℕ)) (rest : List ℕ) (now : ℕ)
      → IsIdle s
      → length bs ≤ config.rx_buffer_size
      → config.rx_buffer_size < u16_mod
      → bytes_of input ≡ hdlc_frame bs ++ rest
      → (left : List (ℕ × ℕ)) × (t : ℕ) × (bytes_of left ≡ frame_delimiter ∷ rest)
        × (actionslink_bt_ll_rx codec config s input now
            ≡ actionslink_bt_ll_rx codec config (buffered s bs t) left now)
  unfolding hdlc_frame
  receive_body s bs input rest now idle room small h =
      let a = bytes-cons input _ _ h in
      let s₁ = record s { last_rx_timestamp = a.0 } in
      let zero_buffered = idle.none_buffered in
      let r =
        rx_data codec config bs s₁ a.1 (frame_delimiter ∷ rest) now idle.at_data (omega arith) small
          (omega (arith, idle.none_received))
          (a.3 ∙ append_assoc (escape bs) (frame_delimiter ∷ []) rest) in
      (
        r.0,
        r.1,
        r.2,
        ap (λ l. actionslink_bt_ll_rx codec config s l now) a.2
            ∙ rx_incomplete codec config s frame_delimiter a.0 a.1 now s₁
                (opening_delimiter s₁ idle.none_received)
            ∙ r.3,
      )

  -- Round trip. Let the codec keep nanopb's promises, the buffer sizes be 16-bit numbers, and the
  -- receiver be idle. If the input begins with the HDLC frame of a packet whose value fits its five
  -- bits, whose bytes fit the receive buffer, and whose payload is what its type asks for (none for
  -- an ack; one that decodes for a protobuf packet), then the receiver returns 1 with exactly that
  -- packet, leaves the rest of the input unread, is idle again, and has sent an ack with the packet's
  -- transaction id if and only if it was a protobuf packet (and the ack fits the transmit buffer).
  pub receive_frame :
      IsCodec codec
      → (s : LowLayer) (type : PacketType) (value transaction_id : ℕ) (payload : List ℕ)
        (message : Option ToMcu) (input : List (ℕ × ℕ)) (rest : List ℕ) (now : ℕ)
      → IsIdle s
      → config.tx_buffer_size < u16_mod
      → config.rx_buffer_size < u16_mod
      → value < 32
      → 8 + length payload ≤ config.rx_buffer_size
      → received_message codec type payload ≡ some message
      → bytes_of input ≡ hdlc_frame (packet_bytes type value transaction_id payload) ++ rest
      → (s' : LowLayer) × (left : List (ℕ × ℕ)) × (actionslink_bt_ll_rx codec config s input now
          ≡ (pos 1, some (packet_of type value transaction_id message payload), s', left))
        × (bytes_of left ≡ rest)
        × Received s type transaction_id s'
  receive_frame law s type value transaction_id payload message input rest now idle tx rx v room m
        h =
      let bs = packet_bytes type value transaction_id payload in
      let len = length-packet_bytes type value transaction_id payload in
      let body = receive_body s bs input rest now idle (omega (arith, len)) rx h in
      let a = bytes-cons body.0 _ _ body.2 in
      let s₁ = buffered s bs a.0 in
      let stored : Holds s₁ type value transaction_id payload =
        buffered-Holds s₁ type value transaction_id payload (
          ap (λ i. load_range (store_range s.rx_buffer i bs) 0 (length bs)) idle.none_buffered
          ∙ load_range-store_range s.rx_buffer 0 bs) in
      let step : process_received_byte codec config s₁ frame_delimiter ≡ (
        complete (packet_of type value transaction_id message payload),
        acknowledged codec config s₁ type transaction_id,
      ) =
        end_of_frame_lem codec config s₁ (omega (arith, len))
          (omega (arith, idle.none_received, idle.none_buffered))
        ∙ validate_lem codec config s₁ type value transaction_id payload stored v (omega arith)
        ∙ decode_payload_lem codec config s₁ type value transaction_id payload message stored.body
            m in
      (
        reset_transport_state (acknowledged codec config s₁ type transaction_id),
        a.1,
        body.3
            ∙ ap (λ l. actionslink_bt_ll_rx codec config (buffered s bs body.1) l now) a.2
            ∙ rx_complete codec config (buffered s bs body.1) frame_delimiter a.0 a.1 now _ _ step,
        a.3,
        acknowledged-Received law tx s s₁ type transaction_id refl,
      )
