-- ===== src/Link/Tests.antt =====
-- The low layer of the link at concrete inputs: a codec that keeps nanopb's promises, a configuration,
-- and the theorems applied to them.
use mynd_firmware.Prelude.{
  ℕ, ◌≤◌, ◌≡◌, ◌≢◌, refl, ap, Bool, true, false, none, some, List, [], ◌∷◌, ◌++◌, arith, ltb,
  if◌then◌else◌, length, All,
}
use mynd_firmware.Prelude.Memory.{store_range, load_range-store_range}
use mynd_firmware.Prelude.Words.{IsByte}
use mynd_firmware.Prelude.Int.{pos}
use mynd_firmware.Link.Crc8.{
  crc8_table, crc8_step, calculate_crc8, divide_message, calculate_crc8-eq-divide_message,
  calculate_crc8_detects,
}
use mynd_firmware.Link.Packet.{
  ack, protobuf, data_state, Codec, IsCodec, Config, LowLayer, TxPacket, packet_bytes, header_bytes,
}
use mynd_firmware.Link.Tx.{is_escape_required, actionslink_bt_ll_tx}
use mynd_firmware.Link.Rx.{complete, process_received_byte, actionslink_bt_ll_rx}
use mynd_firmware.Link.Escape.{escape, hdlc_frame}
use mynd_firmware.Link.TxLaws.{Sends, encoded_payload, actionslink_bt_ll_tx-Sends}
use mynd_firmware.Link.Checked.{
  received_message, packet_of, acknowledged, unreceived_payload_accepted,
}
use mynd_firmware.Link.RoundTrip.{IsIdle, Received, receive_frame}
use mynd_firmware.Link.RxLaws.{bytes_of}
use mynd_firmware.Link.RxSafety.{IsSafe, actionslink_bt_ll_rx-IsSafe}

-- One message is two bytes, a delimiter among them; the other is one byte.
abbrev encoding : Bool → List ℕ
encoding true = 0x7e ∷ 0x01 ∷ []
encoding false = 0x05 ∷ []

abbrev codec : Codec Bool (List ℕ)
codec = record {
  pb_get_encoded_size = λ m. some (length (encoding m));
  pb_encode = λ m room. if ltb room (length (encoding m)) then none else some (encoding m);
  pb_decode = λ bs. some bs;
}

codec_size :
    (m : Bool) (room : ℕ) (bs : List ℕ)
    → codec.pb_encode m room ≡ some bs
    → (codec.pb_get_encoded_size m ≡ some (length bs)) × (encoding m ≡ bs) × (length bs ≤ room)
codec_size true room bs e = ground arith
codec_size false room bs e = ground arith

codec_bytes : (m : Bool) (room : ℕ) (bs : List ℕ) → codec.pb_encode m room ≡ some bs → All IsByte bs
codec_bytes true room bs e = rw (← (codec_size true room bs e).1) (omega arith)
codec_bytes false room bs e = rw (← (codec_size false room bs e).1) (omega arith)

codec-IsCodec : IsCodec codec
codec-IsCodec = record {
  encoded_size = λ m room bs e. (codec_size m room bs e).0;
  encoded_bytes = codec_bytes;
  encoded_fits = λ m room bs e. (codec_size m room bs e).2;
}

-- The line takes every frame.
abbrev config : Config
config = record {
  tx_buffer_size = 64;
  rx_buffer_size = 32;
  write_buffer_fn = λ frames frame. pos 0;
}

abbrev idle : LowLayer
idle = record {
  state = data_state;
  received_data_length = 0;
  buffered_data_length = 0;
  last_rx_timestamp = 0;
  rx_buffer = λ i. 0;
  tx_buffer = λ i. 0;
  written = [];
}

idle-IsIdle : IsIdle idle
idle-IsIdle = record { at_data = refl; none_received = refl; none_buffered = refl }

crc_of_check_string :
    calculate_crc8 0 (b'1' ∷ b'2' ∷ b'3' ∷ b'4' ∷ b'5' ∷ b'6' ∷ b'7' ∷ b'8' ∷ b'9' ∷ []) ≡ 0xf4
unfolding calculate_crc8 crc8_step crc8_table
crc_of_check_string = refl

calculate_crc8-eq-divide_message_example :
    calculate_crc8 0 (0x55 ∷ 1 ∷ 9 ∷ []) ≡ divide_message 0 (0x55 ∷ 1 ∷ 9 ∷ [])
calculate_crc8-eq-divide_message_example =
    calculate_crc8-eq-divide_message 0 (0x55 ∷ 1 ∷ 9 ∷ []) (omega arith) (omega arith)

calculate_crc8_detects_example :
    calculate_crc8 0 (1 ∷ 2 ∷ 3 ∷ []) ≢ calculate_crc8 0 (1 ∷ 9 ∷ 3 ∷ [])
calculate_crc8_detects_example =
    calculate_crc8_detects 0 (1 ∷ []) 2 9 (3 ∷ []) (omega arith) (omega arith) (omega arith)
      (omega arith) (omega arith) (omega arith)

-- The frame of an ack with transaction id 0x7e, a byte that is escaped.
ack_frame :
    hdlc_frame (packet_bytes ack 0 0x7e [])
    ≡ 0x7e
      ∷ 0x55
      ∷ 0
      ∷ 0x7d
      ∷ 0x5e
      ∷ 0
      ∷ 0
      ∷ 0
      ∷ 0
      ∷ calculate_crc8 0 (0x55 ∷ 0 ∷ 0x7e ∷ 0 ∷ 0 ∷ 0 ∷ 0 ∷ [])
      ∷ 0x7e
      ∷ []
unfolding hdlc_frame escape is_escape_required packet_bytes header_bytes calculate_crc8 crc8_step
    crc8_table
ack_frame = refl

abbrev packet : TxPacket Bool
packet = record { packet_type = protobuf; value = 0; transaction_id = 4; p_payload = some true }

actionslink_bt_ll_tx-Sends_example :
    Sends config idle
      (hdlc_frame (packet_bytes protobuf 0 4 (0x7e ∷ 0x01 ∷ [])))
      (actionslink_bt_ll_tx codec config idle packet)
unfolding encoded_payload
actionslink_bt_ll_tx-Sends_example =
    actionslink_bt_ll_tx-Sends codec-IsCodec config idle packet (0x7e ∷ 0x01 ∷ []) (omega arith)
      refl

at_tick : ℕ → List ℕ → List (ℕ × ℕ)
at_tick t [] = []
at_tick t (b ∷ bs) = (b, t) ∷ at_tick t bs

bytes_of-at_tick : (t : ℕ) (bs : List ℕ) → bytes_of (at_tick t bs) ≡ bs
unfolding at_tick
bytes_of-at_tick t [] = refl
bytes_of-at_tick t (b ∷ bs) = ap (λ l. b ∷ l) (bytes_of-at_tick t bs)

-- A protobuf packet, and one byte of the next frame.
abbrev line : List ℕ
line = hdlc_frame (packet_bytes protobuf 3 4 (0x7e ∷ 0x01 ∷ [])) ++ (0x7e ∷ [])

receive_frame_example :
    (s' : LowLayer) × (left : List (ℕ × ℕ)) × (actionslink_bt_ll_rx codec config idle
        (at_tick 7 line)
        8
      ≡ (
        pos 1,
        some (packet_of protobuf 3 4 (some (0x7e ∷ 0x01 ∷ [])) (0x7e ∷ 0x01 ∷ [])),
        s',
        left,
      ))
    × (bytes_of left ≡ 0x7e ∷ [])
    × Received codec config idle protobuf 4 s'
unfolding received_message
receive_frame_example =
    receive_frame codec config codec-IsCodec idle protobuf 3 4 (0x7e ∷ 0x01 ∷ [])
      (some (0x7e ∷ 0x01 ∷ [])) (at_tick 7 line) (0x7e ∷ []) 8 idle-IsIdle (omega arith)
      (omega arith) (omega arith) (omega arith) refl (bytes_of-at_tick 7 line)

actionslink_bt_ll_rx-IsSafe_example :
    IsSafe codec config idle 40 (actionslink_bt_ll_rx codec config idle (at_tick 7 line) 8)
actionslink_bt_ll_rx-IsSafe_example =
    actionslink_bt_ll_rx-IsSafe codec config idle (at_tick 7 line) 8 40 (omega arith) (omega arith)
      (omega arith)

-- Nine bytes have been received; the one behind them is left over from an earlier frame.
abbrev stale : LowLayer
stale = record idle {
  received_data_length = 9;
  buffered_data_length = 9;
  rx_buffer = store_range (λ i. 0) 0 (packet_bytes protobuf 3 4 (0x7e ∷ 0x01 ∷ []));
}

unreceived_payload_accepted_example : process_received_byte codec config stale 0x7e ≡ (
  complete (packet_of protobuf 3 4 (some (0x7e ∷ 0x01 ∷ [])) (0x7e ∷ 0x01 ∷ [])),
  acknowledged codec config stale protobuf 4,
)
unfolding received_message
unreceived_payload_accepted_example =
    unreceived_payload_accepted codec config stale protobuf 3 4 (0x7e ∷ 0x01 ∷ [])
      (some (0x7e ∷ 0x01 ∷ [])) (omega arith) (omega arith) refl
      (load_range-store_range (λ i. 0) 0 (packet_bytes protobuf 3 4 (0x7e ∷ 0x01 ∷ [])))
      (omega arith) (omega arith) refl
