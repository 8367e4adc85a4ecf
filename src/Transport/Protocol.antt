-- ===== src/Transport/Protocol.antt =====
-- What a return value of the receiver in actionslink_bt_ul.c says of the state and of the packet, and a
-- message that blocks the layer.
use mynd_firmware.Prelude.{
  ℕ, zero, suc, ◌<◌, ◌≡◌, ◌⊎◌, inl, inr, refl, ap, true, false, Option, none, some, ◌++◌, arith,
  if◌then◌else◌,
}
use mynd_firmware.Prelude.Words.{get_ms_since}
use mynd_firmware.Prelude.Int.{ℤ, pos, negsuc}
use mynd_firmware.Link.Packet.{protobuf, Codec, Config, LowLayer, RxPacket}
use mynd_firmware.Link.Packet as Packet
use mynd_firmware.Link.Rx.{actionslink_bt_ll_rx}
use mynd_firmware.Transport.Messages.{
  TransportState, idle, ack, response, response_payload, invalid, UpperLayer, Client, Poll,
}
use mynd_firmware.Transport.Upper.{
  actionslink_bt_ul_is_busy, actionslink_bt_ul_tx, transport_state_idle, transport_state_ack,
  transport_state_response, handle_packet, check_response_timeout, conclude, react,
  actionslink_bt_ul_rx, message_response_timeout_ms,
}

-- The states in which the layer rests between calls.
abbrev pub IsStable : TransportState → Type 0
IsStable st = (st ≡ idle) ⊎ (st ≡ ack) ⊎ (st ≡ response)

-- A packet that ends the exchange of the message that has been sent: the ack of a message without a
-- response, or the response with the tag of the request.
abbrev pub Confirms :
    {FromMcu ToMcu : Type 0} → Client FromMcu ToMcu → UpperLayer → RxPacket ToMcu → Type 0
Confirms {ToMcu = ToMcu} client s p =
    ((s.state ≡ ack)
      × (s.expect_response ≡ false)
      × (p.packet_type ≡ Packet.ack)
      × (p.transaction_id ≡ s.transaction_id))
    ⊎ ((s.state ≡ response)
        × (p.packet_type ≡ protobuf)
        × ((m : ToMcu) × (p.message ≡ some m) × (client.which_to_mcu m ≡ response_payload s.tag)))

module _ {FromMcu ToMcu : Type 0} (codec : Codec FromMcu ToMcu) (config : Config)
    (client : Client FromMcu ToMcu) where
  -- What a result says, given what the lower layer returned (`code`, `packet`) in the same call.
  abbrev pub Answers : UpperLayer → ℕ → ℤ → Option (RxPacket ToMcu) → ℤ × UpperLayer → Type 0
  Answers s tick code packet (pos zero, s') =
      (s'.state ≡ s.state) ⊎ ((s.state ≡ ack) × (s'.state ≡ response) × (s.expect_response ≡ true))
  Answers s tick code packet (pos (suc n), s') =
      (n ≡ 0)
      × (s'.state ≡ idle)
      × (code ≡ pos 1)
      × ((p : RxPacket ToMcu) × (packet ≡ some p) × Confirms client s p)
  Answers s tick code packet (negsuc zero, s') = (s'.state ≡ idle) × (code ≡ negsuc 0)
  Answers s tick code packet (negsuc (suc n), s') =
      (n ≡ 0)
      × (s'.state ≡ idle)
      × ((s.state ≡ ack) ⊎ (s.state ≡ response))
      × (message_response_timeout_ms < get_ms_since tick s.timestamp)

  idle-Answers :
      (s : UpperLayer) (p : RxPacket ToMcu) (tick : ℕ)
      → s.state ≡ idle
      → Answers s tick
          (pos 1)
          (some p)
          (conclude codec config client (handle_packet codec config client s p tick))
  unfolding handle_packet transport_state_idle conclude
  idle-Answers s p tick h = ground arith

  ack-Answers :
      (s : UpperLayer) (p : RxPacket ToMcu) (tick : ℕ)
      → s.state ≡ ack
      → Answers s tick
          (pos 1)
          (some p)
          (conclude codec config client (handle_packet codec config client s p tick))
  unfolding handle_packet transport_state_ack conclude
  ack-Answers s p tick h = ground arith

  response-Answers :
      (s : UpperLayer) (p : RxPacket ToMcu) (tick : ℕ)
      → s.state ≡ response
      → Answers s tick
          (pos 1)
          (some p)
          (conclude codec config client (handle_packet codec config client s p tick))
  unfolding handle_packet transport_state_response conclude
  response-Answers s p tick h = ground arith

  handle_packet-Answers :
      (s : UpperLayer) (p : RxPacket ToMcu) (tick : ℕ)
      → IsStable s.state
      → Answers s tick
          (pos 1)
          (some p)
          (conclude codec config client (handle_packet codec config client s p tick))
  handle_packet-Answers s p tick (inl e) = idle-Answers s p tick e
  handle_packet-Answers s p tick (inr (inl e)) = ack-Answers s p tick e
  handle_packet-Answers s p tick (inr (inr e)) = response-Answers s p tick e

  check_response_timeout-Answers :
      (s : UpperLayer) (tick : ℕ) (code : ℤ) (packet : Option (RxPacket ToMcu))
      → IsStable s.state
      → Answers s tick code packet
          (conclude codec config client (check_response_timeout codec config client s tick))
  unfolding check_response_timeout conclude
  check_response_timeout-Answers s tick code packet h = ground arith

  react-Answers :
      (code : ℤ) (packet : Option (RxPacket ToMcu)) (s : UpperLayer) (tick : ℕ)
      → IsStable s.state
      → Answers s tick code packet
          (conclude codec config client (react codec config client code packet s tick))
  unfolding react conclude
  react-Answers (pos zero) packet s tick h = check_response_timeout-Answers s tick (pos 0) packet h
  react-Answers (pos (suc zero)) none s tick h = ground arith
  react-Answers (pos (suc zero)) (some p) s tick h = handle_packet-Answers s p tick h
  react-Answers (pos (suc (suc n))) packet s tick h =
      check_response_timeout-Answers s tick (pos (suc (suc n))) packet h
  react-Answers (negsuc zero) packet s tick h = (refl, refl)
  react-Answers (negsuc (suc n)) packet s tick h =
      check_response_timeout-Answers s tick (negsuc (suc n)) packet h

  pub running_lem :
      (s : UpperLayer) (poll : Poll)
      → s.stop_requested ≡ false
      → let got =
          actionslink_bt_ll_rx codec config s.lower (s.line ++ poll.arrived) poll.lower_tick in
        actionslink_bt_ul_rx codec config client s poll
        ≡ conclude codec config client (
            react codec config client got.0 got.1
              (record s { lower = got.2; line = got.3 })
              poll.tick)
  unfolding actionslink_bt_ul_rx
  running_lem s poll e =
      let got =
        actionslink_bt_ll_rx codec config s.lower (s.line ++ poll.arrived) poll.lower_tick in
      ap
        (λ b.
          if b
          then (negsuc 0, s)
          else conclude codec config client (
              react codec config client got.0 got.1 (record s { lower = got.2; line = got.3 })
                poll.tick))
        e

  -- Communication is not stopped, and the layer rests in idle, ack or response. Whatever arrives: a
  -- call of the receiver returns 1 only for a packet, delivered by the lower layer in this call, that
  -- confirms the message (the ack of its transaction if no response is expected, or the response with
  -- the request's tag behind the ack); it returns -1 only if the lower layer returned -1, and -2 only
  -- if more than 300 ms have passed since the timestamp while it waited; after each of them it is idle. It
  -- returns 0 only if the state is unchanged or has gone from ack to response, for a request. It returns nothing else.
  pub actionslink_bt_ul_rx-Answers :
      (s : UpperLayer) (poll : Poll)
      → s.stop_requested ≡ false
      → IsStable s.state
      → let got =
          actionslink_bt_ll_rx codec config s.lower (s.line ++ poll.arrived) poll.lower_tick in
        Answers s poll.tick got.0 got.1 (actionslink_bt_ul_rx codec config client s poll)
  actionslink_bt_ul_rx-Answers s poll e h =
      let got =
        actionslink_bt_ll_rx codec config s.lower (s.line ++ poll.arrived) poll.lower_tick in
      rw (running_lem s poll e)
        (react-Answers got.0 got.1 (record s { lower = got.2; line = got.3 }) poll.tick h)

  -- A message of an unknown type that is sent while the layer is idle is refused with -1, but the layer is
  -- busy behind it: the next message, of whatever type, is refused as well, with no change.
  unknown_message_blocks :
      (s : UpperLayer) (bad next : FromMcu) (tick later : ℕ)
      → s.stop_requested ≡ false
      → s.state ≡ idle
      → client.which_from_mcu bad ≡ invalid
      → let out = actionslink_bt_ul_tx codec config client s bad tick in
        (out.0 ≡ negsuc 0)
        × (actionslink_bt_ul_is_busy out.1 ≡ true)
        × (actionslink_bt_ul_tx codec config client out.1 next later ≡ (negsuc 0, out.1))
  unfolding actionslink_bt_ul_tx actionslink_bt_ul_is_busy
  unknown_message_blocks s bad next tick later e h k = ground arith
