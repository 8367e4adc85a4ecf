-- ===== src/Link/Rx.antt =====
-- The receiver of actionslink_bt_ll.c: bytes are unescaped into the receive buffer, and a closing
-- delimiter has the buffered packet checked, decoded and acknowledged.
use mynd_firmware.Prelude.{
  ℕ, ◌+◌, ◌-◌, ◌*◌, ◌/◌, ◌%◌, bit_xor, Option, none, some, List, [], ◌∷◌, ◌==◌, ltb, leb, not,
  if◌then◌else◌,
}
use mynd_firmware.Prelude.Words.{add32, get_ms_since}
use mynd_firmware.Prelude.Memory.{store, load_range}
use mynd_firmware.Prelude.Int.{ℤ, pos, negsuc}
use mynd_firmware.Link.Crc8.{calculate_crc8}
use mynd_firmware.Link.Packet.{
  PacketType, ack, protobuf, data_state, escaped_data, TransportState, Codec, Config, LowLayer,
  RxPacket,
}
use mynd_firmware.Link.Tx.{
  frame_delimiter, escape_character, escape_mask, packet_header_size, send_ack, send_nack,
}

-- `static void reset_transport_state(void)`
unfoldable pub reset_transport_state : LowLayer → LowLayer
reset_transport_state s = record s {
  received_data_length = 0;
  buffered_data_length = 0;
  state = data_state;
}

unfoldable pub actionslink_bt_ll_reset : LowLayer → LowLayer
actionslink_bt_ll_reset s = reset_transport_state s

-- The configuration that it stores is the parameter `config` below.
unfoldable pub actionslink_bt_ll_init : LowLayer → LowLayer
actionslink_bt_ll_init s = actionslink_bt_ll_reset s

-- The end of actionslink_bt_ll_rx, when read_buffer_fn has nothing more: the timeout.
unfoldable pub check_timeout : LowLayer → ℕ → LowLayer
check_timeout s now =
    if ltb 100 (get_ms_since now s.last_rx_timestamp)
    then (if ltb 0 s.received_data_length then reset_transport_state s else s)
    else s

-- NACK_REASON_…
abbrev pub bad_packet : ℕ
bad_packet = 1

abbrev pub bad_crc : ℕ
bad_crc = 2

abbrev pub invalid_length : ℕ
invalid_length = 3

abbrev pub busy : ℕ
busy = 4

-- What process_received_byte returns, with the packet that it fills in: 0, PROCESS_FRAME_INCOMPLETE
-- and PROCESS_FRAME_ERROR.
pub data Processed (ToMcu : Type 0) : Type 0 where
  complete : RxPacket ToMcu → Processed ToMcu
  incomplete frame_error : Processed ToMcu

module _ {FromMcu ToMcu : Type 0} (codec : Codec FromMcu ToMcu) (config : Config) where
  -- A nack, and PROCESS_FRAME_ERROR.
  unfoldable pub reject : LowLayer → ℕ → Processed ToMcu × LowLayer
  reject s reason = (frame_error, (send_nack codec config s 0 reason).1)

  -- The end of validate_received_data: the packet is filled in, and a protobuf packet acknowledged.
  unfoldable pub accept :
      LowLayer → PacketType → ℕ → ℕ → Option ToMcu → List ℕ → Processed ToMcu × LowLayer
  accept s type value transaction_id message payload = (
    complete (record {
      packet_type = type;
      value = value;
      transaction_id = transaction_id;
      message = message;
      raw_data = payload;
    }),
    elim type [ ack ↦ s | protobuf ↦ (send_ack codec config s transaction_id).1 ],
  )

  -- The checks of validate_received_data that depend on the packet type.
  unfoldable pub decode_payload : LowLayer → PacketType → ℕ → ℕ → ℕ → Processed ToMcu × LowLayer
  decode_payload s ack value transaction_id payload_length =
      if ltb 0 payload_length
      then reject s bad_packet
      else accept s ack value transaction_id none (load_range s.rx_buffer 8 payload_length)
  decode_payload s protobuf value transaction_id payload_length =
      if payload_length == 0
      then reject s bad_packet
      else elim (codec.pb_decode (load_range s.rx_buffer 8 payload_length)) [
        | none ↦ reject s bad_packet
        | some message ↦
            accept s protobuf value transaction_id (some message)
              (load_range s.rx_buffer 8 payload_length)
      ]

  -- `& 0x07` is the remainder by 8, and `>> 3` the quotient.
  abbrev pub received_type : ℕ → Option PacketType
  received_type b = if b % 8 == 0 then some ack else if b % 8 == 1 then some protobuf else none

  unfoldable pub validate_received_data : LowLayer → Processed ToMcu × LowLayer
  validate_received_data s =
      if not (calculate_crc8 0 (load_range s.rx_buffer 0 (packet_header_size - 1)) == s.rx_buffer 7)
      then reject s bad_crc
      else if not (s.rx_buffer 0 == 0x55)
      then reject s bad_packet
      else elim (received_type (s.rx_buffer 1)) [
        | none ↦ reject s bad_packet
        | some type ↦
            let payload_length = s.rx_buffer 4 * 256 + s.rx_buffer 3 in
            if not (calculate_crc8 0 (load_range s.rx_buffer 8 payload_length) == s.rx_buffer 5)
            then reject s bad_crc
            else decode_payload s type (s.rx_buffer 1 / 8) (s.rx_buffer 2) payload_length
      ]

  -- A delimiter.
  unfoldable pub end_of_frame : LowLayer → Processed ToMcu × LowLayer
  end_of_frame s =
      if ltb 0 s.received_data_length
      then (if leb packet_header_size s.received_data_length
          then (if s.received_data_length == s.buffered_data_length
              then validate_received_data s
              else reject s busy)
          else reject s invalid_length)
      else (incomplete, s)

  -- A byte that is neither the delimiter nor the escape character.
  unfoldable pub data_byte : LowLayer → TransportState → ℕ → LowLayer
  data_byte s mode byte =
      let s' =
        if ltb s.buffered_data_length config.rx_buffer_size
        then record s {
          rx_buffer =
              store s.rx_buffer s.buffered_data_length
                (elim mode [ data_state ↦ byte | escaped_data ↦ bit_xor byte escape_mask ]);
          state = data_state;
          buffered_data_length = add32 s.buffered_data_length 1;
        }
        else s in
      record s' { received_data_length = add32 s.received_data_length 1 }

  unfoldable pub process_received_byte : LowLayer → ℕ → Processed ToMcu × LowLayer
  process_received_byte s byte =
      if byte == frame_delimiter
      then end_of_frame s
      else if byte == escape_character
      then (incomplete, record s { state = escaped_data })
      else (incomplete, data_byte s s.state byte)

  -- actionslink_bt_ll_rx. The input is the bytes that read_buffer_fn would give one after another,
  -- each with the tick that is read behind it; `now` is the tick read when they are used up. The
  -- results are the return value with the packet, the state, and the input that is left.
  unfoldable pub actionslink_bt_ll_rx :
      LowLayer → List (ℕ × ℕ) → ℕ → ℤ × Option (RxPacket ToMcu) × LowLayer × List (ℕ × ℕ)
  actionslink_bt_ll_rx s [] now = (pos 0, none, check_timeout s now, [])
  actionslink_bt_ll_rx s ((byte, tick) ∷ input) now =
      let r = process_received_byte (record s { last_rx_timestamp = tick }) byte in
      elim (r.0) [
        | complete packet ↦ (pos 1, some packet, reset_transport_state r.1, input)
        | frame_error ↦ (negsuc 0, none, reset_transport_state r.1, input)
        | incomplete ↦ actionslink_bt_ll_rx r.1 input now
      ]
