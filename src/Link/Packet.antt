-- ===== src/Link/Packet.antt =====
-- The types of actionslink_bt_ll.c: packets, the configuration, the static state `m_bt_ll`, and what
-- the layer takes from nanopb, which is not part of the repository.
use mynd_firmware.Prelude.{
  ℕ, ◌+◌, ◌*◌, ◌/◌, ◌%◌, ◌≤◌, ◌≡◌, Option, some, List, [], ◌∷◌, ◌++◌, length, All,
}
use mynd_firmware.Prelude.Words.{IsByte}
use mynd_firmware.Prelude.Memory.{Memory}
use mynd_firmware.Prelude.Int.{ℤ}
use mynd_firmware.Link.Crc8.{calculate_crc8}

-- `actionslink_bt_ll_packet_type_t`
pub data PacketType : Type 0 where
  ack protobuf : PacketType

abbrev pub packet_type_code : PacketType → ℕ
packet_type_code ack = 0
packet_type_code protobuf = 1

-- `transport_state_t` of the low layer
pub data TransportState : Type 0 where
  data_state escaped_data : TransportState

-- nanopb's three entry points for the two message types. `pb_encode` is given the room that is left
-- in the buffer, and `none` stands for a call that returns false.
pub record Codec (FromMcu ToMcu : Type 0) : Type 0 where
  pub pb_get_encoded_size : FromMcu → Option ℕ
  pub pb_encode : FromMcu → ℕ → Option (List ℕ)
  pub pb_decode : List ℕ → Option ToMcu

-- What nanopb documents of them: an encoding is bytes, fits the room, and has the size foretold.
pub record IsCodec {FromMcu ToMcu : Type 0} (codec : Codec FromMcu ToMcu) : Type 0 where
  pub encoded_size :
      (m : FromMcu) (room : ℕ) (bs : List ℕ)
      → codec.pb_encode m room ≡ some bs
      → codec.pb_get_encoded_size m ≡ some (length bs)
  pub encoded_bytes :
      (m : FromMcu) (room : ℕ) (bs : List ℕ) → codec.pb_encode m room ≡ some bs → All IsByte bs
  pub encoded_fits :
      (m : FromMcu) (room : ℕ) (bs : List ℕ) → codec.pb_encode m room ≡ some bs → length bs ≤ room

-- The part of `actionslink_config_t` that the layer reads. `write_buffer_fn` answers from the frames
-- that it has been handed before, and from the one that it is handed now.
pub record Config : Type 0 where
  pub tx_buffer_size : ℕ
  pub rx_buffer_size : ℕ
  pub write_buffer_fn : List (List ℕ) → List ℕ → ℤ

-- `m_bt_ll`, with the two buffers that the configuration points at, and the frames that have been
-- handed to `write_buffer_fn`, oldest first.
pub record LowLayer : Type 0 where
  pub state : TransportState
  pub received_data_length : ℕ
  pub buffered_data_length : ℕ
  pub last_rx_timestamp : ℕ
  pub rx_buffer : Memory
  pub tx_buffer : Memory
  pub written : List (List ℕ)

-- `actionslink_bt_ll_tx_packet_t`; `none` is a null `p_payload`.
pub record TxPacket (FromMcu : Type 0) : Type 0 where
  pub packet_type : PacketType
  pub value : ℕ
  pub transaction_id : ℕ
  pub p_payload : Option FromMcu

-- `actionslink_bt_ll_rx_packet_t` as it is filled in for the caller: `message` is what pb_decode
-- stored through `p_message` (nothing for an ack), and `raw_data` the bytes that `p_raw_data` and
-- `raw_data_length` delimit.
pub record RxPacket (ToMcu : Type 0) : Type 0 where
  pub packet_type : PacketType
  pub value : ℕ
  pub transaction_id : ℕ
  pub message : Option ToMcu
  pub raw_data : List ℕ

-- A packet on the wire, described apart from the code that builds it: seven header bytes, their CRC,
-- the payload.
unfoldable pub header_bytes : PacketType → ℕ → ℕ → List ℕ → List ℕ
header_bytes type value transaction_id payload =
    0x55
    ∷ ((value * 8 + packet_type_code type) % 256)
    ∷ transaction_id
    ∷ (length payload % 256)
    ∷ (length payload / 256 % 256)
    ∷ calculate_crc8 0 payload
    ∷ 0
    ∷ []

unfoldable pub packet_bytes : PacketType → ℕ → ℕ → List ℕ → List ℕ
packet_bytes type value transaction_id payload =
    let header = header_bytes type value transaction_id payload in
    header ++ (calculate_crc8 0 header ∷ payload)
