-- ===== src/Link/Checked.antt =====
-- What validate_received_data makes of a buffered packet.
use mynd_firmware.Prelude.{
  ℕ, ◌+◌, ◌*◌, ◌/◌, ◌%◌, ◌≤◌, ◌<◌, ◌≡◌, ap, ◌∙◌, Option, none, some, List, [], ◌∷◌, arith, length,
}
use mynd_firmware.Prelude.Words.{u16_mod}
use mynd_firmware.Prelude.Memory.{load_range}
use mynd_firmware.Link.Crc8.{calculate_crc8}
use mynd_firmware.Link.Packet.{
  PacketType, ack, protobuf, packet_type_code, Codec, Config, LowLayer, RxPacket, header_bytes,
  packet_bytes,
}
use mynd_firmware.Link.Tx.{frame_delimiter, send_ack}
use mynd_firmware.Link.Rx.{
  complete, process_received_byte, end_of_frame, validate_received_data, decode_payload, accept,
}

-- The message that a payload stands for: an ack has none, a protobuf packet a decoded one.
unfoldable pub received_message :
    {FromMcu ToMcu : Type 0} → Codec FromMcu ToMcu → PacketType → List ℕ → Option (Option ToMcu)
received_message codec ack [] = some none
received_message codec ack (b ∷ bs) = none
received_message codec protobuf [] = none
received_message codec protobuf (b ∷ bs) = elim (codec.pb_decode (b ∷ bs)) [
  | none ↦ none
  | some message ↦ some (some message)
]

-- The bytes of a buffered packet, field by field.
pub record Holds (s : LowLayer) (type : PacketType) (value transaction_id : ℕ) (payload : List ℕ)
    : Type 0 where
  pub start : s.rx_buffer 0 ≡ 0x55
  pub type_and_value : s.rx_buffer 1 ≡ (value * 8 + packet_type_code type) % 256
  pub id : s.rx_buffer 2 ≡ transaction_id
  pub low : s.rx_buffer 3 ≡ length payload % 256
  pub high : s.rx_buffer 4 ≡ length payload / 256 % 256
  pub payload_crc : s.rx_buffer 5 ≡ calculate_crc8 0 payload
  pub header_crc : calculate_crc8 0 (load_range s.rx_buffer 0 7) ≡ s.rx_buffer 7
  pub body : load_range s.rx_buffer 8 (length payload) ≡ payload

pub length-packet_bytes :
    (type : PacketType) (value transaction_id : ℕ) (payload : List ℕ)
    → length (packet_bytes type value transaction_id payload) ≡ 8 + length payload
unfolding packet_bytes header_bytes
length-packet_bytes type value transaction_id payload = omega arith

pub buffered-Holds :
    (s : LowLayer) (type : PacketType) (value transaction_id : ℕ) (payload : List ℕ)
    → load_range s.rx_buffer 0 (length (packet_bytes type value transaction_id payload))
      ≡ packet_bytes type value transaction_id payload
    → Holds s type value transaction_id payload
unfolding packet_bytes header_bytes load_range
buffered-Holds s type value transaction_id payload h = record {
  start = cc;
  type_and_value = cc;
  id = cc;
  low = cc;
  high = cc;
  payload_crc = cc;
  header_crc = cc;
  body = cc;
}

-- The packet that stands in the buffer, as it is handed to the caller.
abbrev pub packet_of :
    {ToMcu : Type 0} → PacketType → ℕ → ℕ → Option ToMcu → List ℕ → RxPacket ToMcu
packet_of type value transaction_id message payload = record {
  packet_type = type;
  value = value;
  transaction_id = transaction_id;
  message = message;
  raw_data = payload;
}

module _ {FromMcu ToMcu : Type 0} (codec : Codec FromMcu ToMcu) (config : Config) where
  -- The checks that validate_received_data makes of a buffered packet pass.
  pub validate_lem :
      (s : LowLayer) (type : PacketType) (value transaction_id : ℕ) (payload : List ℕ)
      → Holds s type value transaction_id payload
      → value < 32
      → length payload < u16_mod
      → validate_received_data codec config s
        ≡ decode_payload codec config s type value transaction_id (length payload)
  unfolding validate_received_data
  validate_lem s ack value transaction_id payload h v n =
      let len : s.rx_buffer 4 * 256 + s.rx_buffer 3 ≡ length payload =
        omega (arith, h.low, h.high) in
      let crc = ap (calculate_crc8 0) h.body in ground (arith, h, len, crc)
  validate_lem s protobuf value transaction_id payload h v n =
      let len : s.rx_buffer 4 * 256 + s.rx_buffer 3 ≡ length payload =
        omega (arith, h.low, h.high) in
      let crc = ap (calculate_crc8 0) h.body in ground (arith, h, len, crc)

  -- The state behind the acknowledgement, which a protobuf packet alone gets.
  unfoldable pub acknowledged : LowLayer → PacketType → ℕ → LowLayer
  acknowledged s ack transaction_id = s
  acknowledged s protobuf transaction_id = (send_ack codec config s transaction_id).1

  pub decode_payload_lem :
      (s : LowLayer) (type : PacketType) (value transaction_id : ℕ) (payload : List ℕ)
      (message : Option ToMcu)
      → load_range s.rx_buffer 8 (length payload) ≡ payload
      → received_message codec type payload ≡ some message
      → decode_payload codec config s type value transaction_id (length payload) ≡ (
        complete (packet_of type value transaction_id message payload),
        acknowledged s type transaction_id,
      )
  unfolding decode_payload accept received_message acknowledged
  decode_payload_lem s ack value transaction_id [] message h e = ground (arith, h)
  decode_payload_lem s ack value transaction_id (b ∷ bs) message h e = cc
  decode_payload_lem s protobuf value transaction_id [] message h e = cc
  decode_payload_lem s protobuf value transaction_id (b ∷ bs) message h e = ground (arith, h)

  pub end_of_frame_lem :
      (s : LowLayer)
      → 8 ≤ s.received_data_length
      → s.received_data_length ≡ s.buffered_data_length
      → process_received_byte codec config s frame_delimiter ≡ validate_received_data codec config s
  unfolding process_received_byte end_of_frame
  end_of_frame_lem s h e = ground arith

  -- A payload that was not received to its end. If the memory from the start of the receive buffer on holds a
  -- packet, of a value that fits its five bits and with a payload that its 16-bit length describes and
  -- its type accepts, then a delimiter behind any number of received bytes, all of them buffered, from the eight of
  -- the header to one less than the packet has, yields that packet with its whole payload: the length in the
  -- header is not compared with what was received.
  pub unreceived_payload_accepted :
      (s : LowLayer) (type : PacketType) (value transaction_id : ℕ) (payload : List ℕ)
      (message : Option ToMcu)
      → 8 ≤ s.received_data_length
      → s.received_data_length < 8 + length payload
      → s.buffered_data_length ≡ s.received_data_length
      → load_range s.rx_buffer 0 (length (packet_bytes type value transaction_id payload))
        ≡ packet_bytes type value transaction_id payload
      → value < 32
      → length payload < u16_mod
      → received_message codec type payload ≡ some message
      → process_received_byte codec config s frame_delimiter ≡ (
        complete (packet_of type value transaction_id message payload),
        acknowledged s type transaction_id,
      )
  unreceived_payload_accepted s type value transaction_id payload message header short b h v n m =
      let held = buffered-Holds s type value transaction_id payload h in
      end_of_frame_lem s header (omega (arith, b))
      ∙ validate_lem s type value transaction_id payload held v n
      ∙ decode_payload_lem s type value transaction_id payload message held.body m
