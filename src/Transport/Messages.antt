-- ===== src/Transport/Messages.antt =====
-- The types of actionslink_bt_ul.c: its states, its static data, what it reads of a message, and what
-- one call of the receiver reads of the line and the clock.
use mynd_firmware.Prelude.{ℕ, Bool, List}
use mynd_firmware.Link.Packet.{LowLayer}

-- `transport_state_t` of the upper layer
pub data TransportState : Type 0 where
  idle ack response success error timeout : TransportState

-- What the layer reads of the unions that nanopb generates: the tag `which_Payload`, and the tag of the
-- request or the response within. `invalid` is any other value of `which_Payload`.
pub data Payload : Type 0 where
  request_payload response_payload event_payload : ℕ → Payload
  invalid : Payload

-- `m_bt_ul` and `m_message`, with the lower layer below them and the bytes that the line still holds,
-- each with the tick that is read behind it.
pub record UpperLayer : Type 0 where
  pub state : TransportState
  pub tag : ℕ
  pub transaction_id : ℕ
  pub expect_response : Bool
  pub timestamp : ℕ
  pub tx_retries : ℕ
  pub stop_requested : Bool
  pub next_tx_transaction_id : ℕ
  pub within_event_handler : Bool
  pub lower : LowLayer
  pub line : List (ℕ × ℕ)

-- The two message types as the layer reads them, and the two handlers, which may change its state:
-- they are given the message and its raw bytes.
pub record Client (FromMcu ToMcu : Type 0) : Type 0 where
  pub which_from_mcu : FromMcu → Payload
  pub which_to_mcu : ToMcu → Payload
  pub event_handler : ToMcu → List ℕ → UpperLayer → UpperLayer
  pub request_handler : ToMcu → List ℕ → UpperLayer → UpperLayer

-- One call of the receiver: what has arrived since the last one, and the ticks that the lower and the
-- upper layer read in it.
pub record Poll : Type 0 where
  pub arrived : List (ℕ × ℕ)
  pub lower_tick : ℕ
  pub tick : ℕ
