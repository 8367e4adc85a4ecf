-- ===== src/Link/Tx.antt =====
-- The transmitter of actionslink_bt_ll.c: a packet is laid out in the transmit buffer, and turned
-- into an HDLC frame in place, from its last byte to its first.
use mynd_firmware.Prelude.{
  ℕ, zero, suc, ◌+◌, ◌-◌, ◌*◌, ◌/◌, ◌%◌, bit_xor, Bool, true, false, ◌||◌, Option, none, some, List,
  [], ◌∷◌, ◌++◌, ◌==◌, ltb, if◌then◌else◌,
}
use mynd_firmware.Prelude.Words.{sub32}
use mynd_firmware.Prelude.Memory.{Memory, store, load_range, store_range}
use mynd_firmware.Prelude.Int.{ℤ, negsuc}
use mynd_firmware.Link.Crc8.{calculate_crc8}
use mynd_firmware.Link.Packet.{ack, packet_type_code, Codec, Config, LowLayer, TxPacket}

abbrev pub frame_delimiter : ℕ
frame_delimiter = 0x7e

abbrev pub escape_character : ℕ
escape_character = 0x7d

abbrev pub escape_mask : ℕ
escape_mask = 0x20

abbrev pub packet_header_size : ℕ
packet_header_size = 8

unfoldable pub is_escape_required : ℕ → Bool
is_escape_required byte = byte == frame_delimiter || byte == escape_character

-- The list is the bytes that `p_buffer` and `length` delimit.
unfoldable pub get_number_of_escaped_chars : List ℕ → ℕ
get_number_of_escaped_chars [] = 0
get_number_of_escaped_chars (b ∷ bs) =
    let rest = get_number_of_escaped_chars bs in
    if b == frame_delimiter || b == escape_character then rest + 1 else rest

-- The loop that moves the bytes to their places in the frame, `i` counting down; the second result
-- is `index_in_escaped_array`, a `size_t`, whose decrement wraps.
unfoldable pub escape_in_place : ℕ → Memory → ℕ → Memory × ℕ
escape_in_place zero m index = (m, index)
escape_in_place (suc i) m index = elim (is_escape_required (m i)) [
  | true ↦
      escape_in_place i
        (store (store m index (bit_xor (m i) escape_mask)) (sub32 index 1) escape_character)
        (sub32 (sub32 index 1) 1)
  | false ↦ escape_in_place i (store m index (m i)) (sub32 index 1)
]

-- The header bytes that do not depend on the payload. The low three bits of `value << 3` are clear,
-- so the `|` with the packet type is a sum.
unfoldable pub start_header : {FromMcu : Type 0} → TxPacket FromMcu → Memory → Memory
start_header p m =
    store
      (store (store (store m 0 0x55) 1 ((p.value * 8 + packet_type_code p.packet_type) % 256)) 2
        p.transaction_id)
      6 0

-- The three header bytes of a payload: its length, low byte first, and its CRC.
unfoldable pub payload_header : Memory → ℕ → ℕ → Memory
payload_header m length crc = store (store (store m 3 (length % 256)) 4 (length / 256 % 256)) 5 crc

-- `none` is an encoder that failed. What it left in the buffer is overwritten before it is read.
unfoldable pub put_payload :
    {FromMcu ToMcu : Type 0}
    → Codec FromMcu ToMcu
    → Config
    → Option FromMcu
    → Memory
    → Option (ℕ × Memory)
put_payload codec config none m = some (0, payload_header m 0 0)
put_payload codec config (some message) m = elim (codec.pb_get_encoded_size message) [
  | none ↦ none
  | some size ↦ elim (codec.pb_encode message (sub32 config.tx_buffer_size packet_header_size)) [
    | none ↦ none
    | some encoded ↦
        let m' = store_range m packet_header_size encoded in
        some
          (size, payload_header m' size (calculate_crc8 0 (load_range m' packet_header_size size)))
  ]
]

-- The end of actionslink_bt_ll_tx: what is done once the loop has moved the bytes.
unfoldable pub hand_over_frame : Config → LowLayer → ℕ → Memory × ℕ → ℤ × LowLayer
hand_over_frame config s total (m, index) =
    if index == 0
    then (let m' = store m 0 frame_delimiter in
        let frame = load_range m' 0 total in
        (
          config.write_buffer_fn s.written frame,
          record s { tx_buffer = m'; written = s.written ++ (frame ∷ []) },
        ))
    else (negsuc 0, record s { tx_buffer = m })

-- header + payload, one more for each escaped byte, and the two delimiters
unfoldable pub total_length : Memory → ℕ → ℕ
total_length m payload_length =
    packet_header_size
    + payload_length
    + get_number_of_escaped_chars (load_range m 0 packet_header_size)
    + get_number_of_escaped_chars (load_range m packet_header_size payload_length)
    + 2

unfoldable pub build_frame : Config → LowLayer → Memory → ℕ → ℤ × LowLayer
build_frame config s m payload_length =
    let total = total_length m payload_length in
    if ltb config.tx_buffer_size total
    then (negsuc 0, record s { tx_buffer = m })
    else hand_over_frame config s total (
        escape_in_place (packet_header_size + payload_length)
          (store m (sub32 total 1) frame_delimiter) (sub32 (sub32 total 1) 1))

unfoldable pub header_crc : Memory → Memory
header_crc m = store m 7 (calculate_crc8 0 (load_range m 0 (packet_header_size - 1)))

unfoldable pub actionslink_bt_ll_tx :
    {FromMcu ToMcu : Type 0}
    → Codec FromMcu ToMcu
    → Config
    → LowLayer
    → TxPacket FromMcu
    → ℤ × LowLayer
actionslink_bt_ll_tx codec config s packet =
    let m = start_header packet s.tx_buffer in
    elim (put_payload codec config packet.p_payload m) [
      | none ↦ (negsuc 0, record s { tx_buffer = m })
      | some (payload_length, m') ↦ build_frame config s (header_crc m') payload_length
    ]

unfoldable pub send_ack :
    {FromMcu ToMcu : Type 0} → Codec FromMcu ToMcu → Config → LowLayer → ℕ → ℤ × LowLayer
send_ack codec config s transaction_id =
    actionslink_bt_ll_tx codec config s
      (record { packet_type = ack; value = 0; transaction_id = transaction_id; p_payload = none })

unfoldable pub send_nack :
    {FromMcu ToMcu : Type 0} → Codec FromMcu ToMcu → Config → LowLayer → ℕ → ℕ → ℤ × LowLayer
send_nack codec config s transaction_id reason = actionslink_bt_ll_tx codec config s (record {
  packet_type = ack;
  value = reason;
  transaction_id = transaction_id;
  p_payload = none;
})
