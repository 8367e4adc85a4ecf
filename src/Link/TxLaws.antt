-- ===== src/Link/TxLaws.antt =====
-- What the transmitter sends: one HDLC frame around the bytes of the packet, or nothing.
use mynd_firmware.Prelude.{
  ℕ, suc, ◌+◌, ◌/◌, ◌%◌, ◌≤◌, ◌<◌, ◌≡◌, refl, ap, ap₂, ◌∙◌, Option, none, some, inl, inr, List, [],
  ◌∷◌, ◌++◌, append_assoc, arith, Bool-cases, ltb, if◌then◌else◌, length, length-append,
}
use mynd_firmware.Prelude.Words.{u16_mod, sub32}
use mynd_firmware.Prelude.Memory.{
  Memory, store, load_range, store_range, load_range-append, length-load_range,
  load_range-store_behind, load_range-store_before, load_range-store_range, store_range_below,
}
use mynd_firmware.Prelude.Int.{ℤ, negsuc}
use mynd_firmware.Link.Crc8.{calculate_crc8}
use mynd_firmware.Link.Packet.{
  Codec, IsCodec, Config, LowLayer, TxPacket, header_bytes, packet_bytes,
}
use mynd_firmware.Link.Tx.{
  get_number_of_escaped_chars, escape_in_place, start_header, payload_header, put_payload,
  hand_over_frame, total_length, build_frame, header_crc, actionslink_bt_ll_tx, frame_delimiter,
  packet_header_size,
}
use mynd_firmware.Link.Escape.{
  escape, hdlc_frame, length-escape, count-append, escaped_length, escape_in_place-Escaped,
}

pub length-hdlc_frame :
    (bs : List ℕ) → length (hdlc_frame bs) ≡ length bs + get_number_of_escaped_chars bs + 2
unfolding hdlc_frame
length-hdlc_frame bs =
    omega (arith, length-escape bs, length-append (escape bs) (frame_delimiter ∷ []))

total_length_lem :
    (m : Memory) (n : ℕ) → total_length m n ≡ length (hdlc_frame (load_range m 0 (8 + n)))
unfolding total_length
total_length_lem m n = omega (
  arith,
  length-hdlc_frame (load_range m 0 (8 + n)),
  length-load_range m 0 (8 + n),
  ap get_number_of_escaped_chars (load_range-append m 0 8 n),
  count-append (load_range m 0 8) (load_range m 8 n),
)

-- What transmitting a frame does: it is handed to write_buffer_fn, whose result is returned, or it is
-- too long for the transmit buffer, and -1 is returned. Only the buffer changes besides.
pub record Sends (config : Config) (s : LowLayer) (frame : List ℕ) (out : ℤ × LowLayer)
    : Type 0 where
  pub result : out.0 ≡ (
      if ltb config.tx_buffer_size (length frame)
      then negsuc 0
      else config.write_buffer_fn s.written frame)
  pub frames :
      out.1.written
      ≡ (if ltb config.tx_buffer_size (length frame) then s.written else s.written ++ (frame ∷ []))
  pub same_state : out.1.state ≡ s.state
  pub same_received : out.1.received_data_length ≡ s.received_data_length
  pub same_buffered : out.1.buffered_data_length ≡ s.buffered_data_length
  pub same_timestamp : out.1.last_rx_timestamp ≡ s.last_rx_timestamp
  pub same_rx_buffer : out.1.rx_buffer ≡ s.rx_buffer

-- The buffer behind the loop, with the first delimiter stored, holds the frame.
frame_in_buffer :
    (m : Memory) (n total : ℕ)
    → total ≡ length (hdlc_frame (load_range m 0 n))
    → total ≤ u16_mod
    → let out =
        escape_in_place n (store m (sub32 total 1) frame_delimiter) (sub32 (sub32 total 1) 1) in
      (out.1 ≡ 0)
      × (load_range (store out.0 0 frame_delimiter) 0 total ≡ hdlc_frame (load_range m 0 n))
unfolding hdlc_frame load_range
frame_in_buffer m n total e h =
    let len = length-hdlc_frame (load_range m 0 n) in
    let size = length-load_range m 0 n in
    let m₁ = store m (sub32 total 1) frame_delimiter in
    let same : load_range m₁ 0 n ≡ load_range m 0 n =
      load_range-store_behind m (sub32 total 1) frame_delimiter n (omega (arith, len, size)) in
    let count = ap get_number_of_escaped_chars same in
    let r =
      escape_in_place-Escaped n m₁ 1 (sub32 (sub32 total 1) 1) (omega (arith, len, size, count))
        (omega arith) in
    let out = escape_in_place n m₁ (sub32 (sub32 total 1) 1) in
    let q = escaped_length m₁ n + 1 in
    let t : total ≡ suc q = omega (arith, len, size, count) in
    let past = load_range-store_before out.0 0 frame_delimiter 1 q (omega arith) in
    let last : m₁ (suc (escaped_length m₁ n)) ≡ frame_delimiter = ground arith in
    let shape : load_range (store out.0 0 frame_delimiter) 0 (suc q)
        ≡ hdlc_frame (load_range m 0 n) =
      ap (λ l. frame_delimiter ∷ l)
        (past ∙ r.moved ∙ ap₂ (λ a b. escape a ++ (b ∷ [])) same last) in
    (r.ends_at_zero, ap (load_range (store out.0 0 frame_delimiter) 0) t ∙ shape)

pub build_frame-Sends :
    (config : Config) (s : LowLayer) (m : Memory) (n : ℕ)
    → config.tx_buffer_size < u16_mod
    → Sends config s (hdlc_frame (load_range m 0 (8 + n))) (build_frame config s m n)
unfolding build_frame hand_over_frame
build_frame-Sends config s m n h =
    let total = total_length m n in
    let e = total_length_lem m n in
    elim (Bool-cases (ltb config.tx_buffer_size total)) [
      | inl long ↦ record {
        result = ground arith;
        frames = ground arith;
        same_state = ground arith;
        same_received = ground arith;
        same_buffered = ground arith;
        same_timestamp = ground arith;
        same_rx_buffer = ground arith;
      }
      | inr fits ↦
          let le : total ≤ u16_mod = ground arith in
          let f = frame_in_buffer m (8 + n) total e le in
          record {
            result = ground (arith, f);
            frames = ground (arith, f);
            same_state = ground (arith, f);
            same_received = ground (arith, f);
            same_buffered = ground (arith, f);
            same_timestamp = ground (arith, f);
            same_rx_buffer = ground (arith, f);
          }
    ]

module _ {FromMcu : Type 0} (p : TxPacket FromMcu) (m : Memory) (payload : List ℕ) where
  filled : Memory
  filled =
      payload_header (store_range (start_header p m) 8 payload) (length payload)
        (calculate_crc8 0 payload)

  filled_header :
      load_range filled 0 7 ≡ header_bytes p.packet_type p.value p.transaction_id payload
  unfolding filled load_range header_bytes start_header payload_header
  filled_header =
      let m₀ = start_header p m in
      let below = λ (j : ℕ) (h : j < 8). store_range_below m₀ 8 payload j h in
      ground (
        arith,
        below 0 (omega arith),
        below 1 (omega arith),
        below 2 (omega arith),
        below 6 (omega arith),
      )

  filled_payload : load_range filled 8 (length payload) ≡ payload
  unfolding filled payload_header
  filled_payload =
      let n = length payload in
      let m₁ = store_range (start_header p m) 8 payload in
      let m₂ = store m₁ 3 (n % 256) in
      let m₃ = store m₂ 4 (n / 256 % 256) in
      load_range-store_before m₃ 5 (calculate_crc8 0 payload) 8 n (omega arith)
      ∙ load_range-store_before m₂ 4 (n / 256 % 256) 8 n (omega arith)
      ∙ load_range-store_before m₁ 3 (n % 256) 8 n (omega arith)
      ∙ load_range-store_range (start_header p m) 8 payload

  -- With the header CRC the buffer holds the packet.
  packet_in_buffer :
      load_range (header_crc filled) 0 (8 + length payload)
      ≡ packet_bytes p.packet_type p.value p.transaction_id payload
  unfolding header_crc packet_bytes load_range
  packet_in_buffer =
      let n = length payload in
      let crc = calculate_crc8 0 (load_range filled 0 7) in
      let m₁ = store filled 7 crc in
      let header = header_bytes p.packet_type p.value p.transaction_id payload in
      let front : load_range m₁ 0 7 ≡ header =
        load_range-store_behind filled 7 crc 7 (omega arith) ∙ filled_header in
      let last : load_range m₁ 7 1 ≡ calculate_crc8 0 header ∷ [] =
        ap (λ h. calculate_crc8 0 h ∷ []) filled_header in
      let back : load_range m₁ 8 n ≡ payload =
        load_range-store_before filled 7 crc 8 n (omega arith) ∙ filled_payload in
      load_range-append m₁ 0 8 n
      ∙ ap₂ ◌++◌ (load_range-append m₁ 0 7 1 ∙ ap₂ ◌++◌ front last) back
      ∙ append_assoc header (calculate_crc8 0 header ∷ []) payload

-- The payload that a packet carries: no bytes for a null pointer, and what nanopb makes of a message
-- in the room behind the header otherwise; `none` is an encoder that fails.
unfoldable pub encoded_payload :
    {FromMcu ToMcu : Type 0} → Codec FromMcu ToMcu → Config → Option FromMcu → Option (List ℕ)
encoded_payload codec config none = some []
encoded_payload codec config (some message) =
    codec.pb_encode message (sub32 config.tx_buffer_size packet_header_size)

module _ {FromMcu ToMcu : Type 0} {codec : Codec FromMcu ToMcu} (law : IsCodec codec)
    (config : Config) where
  put_payload_lem :
      (q : Option FromMcu) (m : Memory) (bs : List ℕ)
      → encoded_payload codec config q ≡ some bs
      → put_payload codec config q m
        ≡ some (length bs, payload_header (store_range m 8 bs) (length bs) (calculate_crc8 0 bs))
  unfolding encoded_payload put_payload store_range calculate_crc8
  put_payload_lem none m [] e = refl
  put_payload_lem none m (b ∷ bs) e = cc
  put_payload_lem (some message) m bs e = rw (
    law.encoded_size message (sub32 config.tx_buffer_size 8) bs e,
    e,
    put_payload,
    load_range-store_range m 8 bs,
  )

  -- For an encoder that keeps nanopb's promises, and a transmit buffer that its 16-bit size
  -- describes: if the payload encodes to `bs`, transmitting the packet hands one frame to
  -- write_buffer_fn, which is the HDLC frame of the packet's bytes, and returns the result of that
  -- call; a frame longer than the buffer is not handed over, and -1 is returned. Nothing but the
  -- transmit buffer changes besides.
  pub actionslink_bt_ll_tx-Sends :
      (s : LowLayer) (p : TxPacket FromMcu) (bs : List ℕ)
      → config.tx_buffer_size < u16_mod
      → encoded_payload codec config p.p_payload ≡ some bs
      → Sends config s
          (hdlc_frame (packet_bytes p.packet_type p.value p.transaction_id bs))
          (actionslink_bt_ll_tx codec config s p)
  unfolding actionslink_bt_ll_tx filled
  actionslink_bt_ll_tx-Sends s p bs h e =
      rw
        (
          put_payload_lem p.p_payload (start_header p s.tx_buffer) bs e,
          actionslink_bt_ll_tx,
          ← packet_in_buffer p s.tx_buffer bs,
        )
        (build_frame-Sends config s (header_crc (filled p s.tx_buffer bs)) (length bs) h)

  put_payload_fails :
      (q : Option FromMcu) (m : Memory)
      → encoded_payload codec config q ≡ none
      → put_payload codec config q m ≡ none
  unfolding encoded_payload put_payload
  put_payload_fails none m e = cc
  put_payload_fails (some message) m e = ground arith

  -- A packet whose payload does not encode is not sent: -1, and no frame is handed over.
  actionslink_bt_ll_tx_fails :
      (s : LowLayer) (p : TxPacket FromMcu)
      → encoded_payload codec config p.p_payload ≡ none
      → ((actionslink_bt_ll_tx codec config s p).0 ≡ negsuc 0)
        × ((actionslink_bt_ll_tx codec config s p).1.written ≡ s.written)
  unfolding actionslink_bt_ll_tx
  actionslink_bt_ll_tx_fails s p e =
      rw (put_payload_fails p.p_payload (start_header p s.tx_buffer) e, actionslink_bt_ll_tx)
        (refl, refl)
