-- ===== src/Link/RxSafety.antt =====
-- What every input does to the receiver: it never writes past the receive buffer, and a call that
-- returns a packet or an error leaves it idle.
use mynd_firmware.Prelude.{
  ℕ, ◌≤◌, ◌<◌, ◌≡◌, ◌≢◌, ◌⊎◌, refl, ap, ◌∙◌, Option, List, [], ◌∷◌, arith, Option-cases, inl, inr,
}
use mynd_firmware.Prelude.Words.{u32_mod}
use mynd_firmware.Prelude.Memory.{Memory}
use mynd_firmware.Prelude.Int.{ℤ, pos}
use mynd_firmware.Link.Packet.{
  PacketType, ack, protobuf, Codec, Config, LowLayer, TxPacket, RxPacket,
}
use mynd_firmware.Link.Tx.{
  actionslink_bt_ll_tx, build_frame, hand_over_frame, put_payload, start_header, header_crc,
  send_ack, send_nack,
}
use mynd_firmware.Link.Rx.{
  Processed, complete, incomplete, frame_error, process_received_byte, end_of_frame, data_byte,
  reject, accept, decode_payload, validate_received_data, actionslink_bt_ll_rx,
  reset_transport_state, check_timeout,
}
use mynd_firmware.Link.RoundTrip.{IsIdle}

-- The fields that a transmission leaves alone.
record Keeps (s s' : LowLayer) : Type 0 where
  same_buffered : s'.buffered_data_length ≡ s.buffered_data_length
  same_rx_buffer : s'.rx_buffer ≡ s.rx_buffer

Keeps-refl : (s : LowLayer) → Keeps s s
Keeps-refl s = record { same_buffered = refl; same_rx_buffer = refl }

Processed-cases :
    {A : Type 0} (x : Processed A)
    → ((p : RxPacket A) × (x ≡ complete p)) ⊎ (x ≡ frame_error) ⊎ (x ≡ incomplete)
Processed-cases (complete p) = inl (p, refl)
Processed-cases frame_error = inr (inl refl)
Processed-cases incomplete = inr (inr refl)

module _ {FromMcu ToMcu : Type 0} (codec : Codec FromMcu ToMcu) (config : Config) where
  hand_over_frame-Keeps :
      (s : LowLayer) (total : ℕ) (out : Memory × ℕ) → Keeps s (hand_over_frame config s total out).1
  unfolding hand_over_frame
  hand_over_frame-Keeps s total (m, index) = ground arith

  build_frame-Keeps : (s : LowLayer) (m : Memory) (n : ℕ) → Keeps s (build_frame config s m n).1
  unfolding build_frame
  build_frame-Keeps s m n = grind (arith, hand_over_frame-Keeps)

  tx-Keeps :
      (s : LowLayer) (p : TxPacket FromMcu) → Keeps s (actionslink_bt_ll_tx codec config s p).1
  unfolding actionslink_bt_ll_tx
  tx-Keeps s p =
      elim (Option-cases (put_payload codec config p.p_payload (start_header p s.tx_buffer))) [
        | inl e ↦
            rw (e, actionslink_bt_ll_tx) (record { same_buffered = refl; same_rx_buffer = refl })
        | inr (q, e) ↦ rw (e, actionslink_bt_ll_tx) (build_frame-Keeps s (header_crc q.1) q.0)
      ]

  reject-Keeps : (s : LowLayer) (reason : ℕ) → Keeps s (reject codec config s reason).1
  unfolding reject send_nack
  reject-Keeps s reason = tx-Keeps s _

  accept-Keeps :
      (s : LowLayer) (type : PacketType) (v t : ℕ) (m : Option ToMcu) (bs : List ℕ)
      → Keeps s (accept codec config s type v t m bs).1
  unfolding accept send_ack
  accept-Keeps s ack v t m bs = Keeps-refl s
  accept-Keeps s protobuf v t m bs = tx-Keeps s _

  decode_payload-Keeps :
      (s : LowLayer) (type : PacketType) (v t n : ℕ)
      → Keeps s (decode_payload codec config s type v t n).1
  unfolding decode_payload
  decode_payload-Keeps s ack v t n = grind (arith, reject-Keeps, accept-Keeps)
  decode_payload-Keeps s protobuf v t n = grind (arith, reject-Keeps, accept-Keeps)

  validate-Keeps : (s : LowLayer) → Keeps s (validate_received_data codec config s).1
  unfolding validate_received_data
  validate-Keeps s = grind (arith, reject-Keeps, decode_payload-Keeps)

  end_of_frame-Keeps : (s : LowLayer) → Keeps s (end_of_frame codec config s).1
  unfolding end_of_frame
  end_of_frame-Keeps s = grind (arith, reject-Keeps, validate-Keeps)

  -- The fill of the receive buffer is within its size.
  abbrev pub Within : LowLayer → Type 0
  Within s = s.buffered_data_length ≤ config.rx_buffer_size

  -- One byte keeps it there, and changes no byte of memory past the buffer.
  process_received_byte-Within :
      (s : LowLayer) (byte j : ℕ)
      → config.rx_buffer_size < u32_mod
      → Within s
      → config.rx_buffer_size ≤ j
      → let s' = (process_received_byte codec config s byte).1 in
        Within s' × (s'.rx_buffer j ≡ s.rx_buffer j)
  unfolding process_received_byte data_byte
  process_received_byte-Within s byte j small w h =
      let k = end_of_frame-Keeps s in ground (arith, k, ap (λ (m : Memory). m j) k.same_rx_buffer)

  reset-IsIdle : (s : LowLayer) → IsIdle (reset_transport_state s)
  unfolding reset_transport_state
  reset-IsIdle s = record { at_data = refl; none_received = refl; none_buffered = refl }

  reset-Within : (s : LowLayer) → Within (reset_transport_state s)
  unfolding reset_transport_state
  reset-Within s = omega arith

  reset_rx_buffer : (s : LowLayer) → (reset_transport_state s).rx_buffer ≡ s.rx_buffer
  unfolding reset_transport_state
  reset_rx_buffer s = refl

  check_timeout-Keeps :
      (s : LowLayer) (now : ℕ)
      → Within s
      → Within (check_timeout s now) × ((check_timeout s now).rx_buffer ≡ s.rx_buffer)
  unfolding check_timeout
  check_timeout-Keeps s now w = grind (arith, reset-Within, reset_rx_buffer)

  -- What a call of the receiver promises for whatever is on the line.
  pub record IsSafe (s : LowLayer) (j : ℕ)
      (out : ℤ × Option (RxPacket ToMcu) × LowLayer × List (ℕ × ℕ)) : Type 0 where
    pub within : Within out.2
    pub untouched : out.2.rx_buffer j ≡ s.rx_buffer j
    pub idle_if_done : out.0 ≢ pos 0 → IsIdle out.2

  -- Whatever bytes arrive, with whatever contents of the buffers: if the fill of the receive buffer
  -- is within its size before the call (of a size that 32 bits hold), it is so after it, no byte past
  -- the end of the buffer has changed, and unless the call returns 0 the receiver is idle again.
  pub actionslink_bt_ll_rx-IsSafe :
      (s : LowLayer) (input : List (ℕ × ℕ)) (now j : ℕ)
      → config.rx_buffer_size < u32_mod
      → Within s
      → config.rx_buffer_size ≤ j
      → IsSafe s j (actionslink_bt_ll_rx codec config s input now)
  unfolding actionslink_bt_ll_rx
  actionslink_bt_ll_rx-IsSafe s [] now j small w h =
      let k = check_timeout-Keeps s now w in
      record {
        within = k.0;
        untouched = ap (λ (m : Memory). m j) k.1;
        idle_if_done = λ e. absurd (e refl);
      }
  actionslink_bt_ll_rx-IsSafe s ((byte, tick) ∷ input) now j small w h =
      let s₁ = record s { last_rx_timestamp = tick } in
      let p = process_received_byte-Within s₁ byte j small w h in
      let r = process_received_byte codec config s₁ byte in
      let done : (out : ℤ × Option (RxPacket ToMcu) × LowLayer × List (ℕ × ℕ))
          → out.2 ≡ reset_transport_state r.1
          → IsSafe s j out =
        λ out e. record {
          within = rw e (reset-Within r.1);
          untouched = rw e (ap (λ (m : Memory). m j) (reset_rx_buffer r.1) ∙ p.1);
          idle_if_done = λ _. rw e (reset-IsIdle r.1);
        } in
      elim (Processed-cases r.0) [
        | inl (packet, e) ↦ rw (e, actionslink_bt_ll_rx) (done _ refl)
        | inr (inl e) ↦ rw (e, actionslink_bt_ll_rx) (done _ refl)
        | inr (inr e) ↦
            let next = actionslink_bt_ll_rx-IsSafe r.1 input now j small p.0 h in
            rw (e, actionslink_bt_ll_rx)
              (record {
                within = next.within;
                untouched = next.untouched ∙ p.1;
                idle_if_done = next.idle_if_done;
              })
      ]
