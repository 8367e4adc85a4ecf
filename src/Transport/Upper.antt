-- ===== src/Transport/Upper.antt =====
-- actionslink_bt_ul.c over its static state: sending, receiving, and sending with retries.
use mynd_firmware.Prelude.{
  ℕ, zero, suc, ◌+◌, ◌%◌, Bool, true, false, ◌&&◌, ◌||◌, not, Option, none, some, List, [], ◌∷◌,
  ◌++◌, ◌==◌, ltb, if◌then◌else◌,
}
use mynd_firmware.Prelude.Words.{u8_mod, get_ms_since}
use mynd_firmware.Prelude.Int.{ℤ, pos, negsuc, is_zero, is_one}
use mynd_firmware.Link.Packet.{protobuf, Codec, Config, LowLayer, TxPacket, RxPacket}
use mynd_firmware.Link.Packet as Packet
use mynd_firmware.Link.Tx.{actionslink_bt_ll_tx}
use mynd_firmware.Link.Rx.{actionslink_bt_ll_init, actionslink_bt_ll_rx}
use mynd_firmware.Transport.Messages.{
  TransportState, idle, ack, response, success, error, timeout, request_payload, response_payload,
  event_payload, invalid, UpperLayer, Client, Poll,
}

abbrev pub max_number_of_tx_retries : ℕ
max_number_of_tx_retries = 2

abbrev pub message_response_timeout_ms : ℕ
message_response_timeout_ms = 300

-- The configuration and the handlers that it stores are parameters below.
unfoldable pub actionslink_bt_ul_init : UpperLayer → UpperLayer
actionslink_bt_ul_init s = record s {
  state = idle;
  stop_requested = false;
  tx_retries = 0;
  next_tx_transaction_id = 0;
  within_event_handler = false;
  lower = actionslink_bt_ll_init s.lower;
}

unfoldable pub actionslink_bt_ul_is_busy : UpperLayer → Bool
actionslink_bt_ul_is_busy s = elim s.state [ idle ↦ false | _ ↦ true ]

unfoldable pub actionslink_bt_ul_stop_communication : UpperLayer → UpperLayer
actionslink_bt_ul_stop_communication s = record s { stop_requested = true }

unfoldable pub actionslink_bt_ul_is_communication_allowed : UpperLayer → Bool
actionslink_bt_ul_is_communication_allowed s = not s.stop_requested

unfoldable pub actionslink_bt_ul_resume_communication : UpperLayer → UpperLayer
actionslink_bt_ul_resume_communication s = record s { stop_requested = false }

module _ {FromMcu ToMcu : Type 0} (codec : Codec FromMcu ToMcu) (config : Config)
    (client : Client FromMcu ToMcu) where
  -- The second half of actionslink_bt_ul_tx, behind the switch over the message type.
  unfoldable pub send_packet : UpperLayer → FromMcu → ℕ → Bool → ℤ × UpperLayer
  send_packet s message tag expect_response =
      let id = s.next_tx_transaction_id in
      let out = actionslink_bt_ll_tx codec config s.lower (record {
        packet_type = protobuf;
        value = 0;
        transaction_id = id;
        p_payload = some message;
      }) in
      let sent = record s {
        tag = tag;
        expect_response = expect_response;
        transaction_id = id;
        next_tx_transaction_id = (id + 1) % u8_mod;
        lower = out.1;
      } in
      if is_zero out.0 then (pos 0, sent) else (negsuc 0, record sent { state = idle })

  -- actionslink_bt_ul_tx at a tick.
  unfoldable pub actionslink_bt_ul_tx : UpperLayer → FromMcu → ℕ → ℤ × UpperLayer
  actionslink_bt_ul_tx s message tick =
      if s.stop_requested
      then (negsuc 0, s)
      else if actionslink_bt_ul_is_busy s
      then (negsuc 0, s)
      else (let started = record s { state = ack; timestamp = tick } in
          elim (client.which_from_mcu message) [
            | request_payload tag ↦ send_packet started message tag true
            | response_payload tag ↦ send_packet started message tag false
            | event_payload tag ↦ send_packet started message tag false
            | invalid ↦ (negsuc 0, started)
          ])

  -- The three calls of the event handler, which are the same.
  unfoldable pub handle_event : UpperLayer → ToMcu → List ℕ → UpperLayer
  handle_event s message raw =
      record (client.event_handler message raw (record s { within_event_handler = true })) {
        within_event_handler = false;
      }

  -- The next state, and what the handlers have changed. The lower layer hands over the message of
  -- every protobuf packet.
  unfoldable pub transport_state_idle : UpperLayer → RxPacket ToMcu → TransportState × UpperLayer
  transport_state_idle s p = (
    idle,
    elim p.packet_type [
      | Packet.ack ↦ s
      | Packet.protobuf ↦ elim p.message [
        | none ↦ s
        | some message ↦ elim (client.which_to_mcu message) [
          | request_payload tag ↦ client.request_handler message p.raw_data s
          | event_payload tag ↦ handle_event s message p.raw_data
          | _ ↦ s
        ]
      ]
    ],
  )

  unfoldable pub transport_state_ack : UpperLayer → RxPacket ToMcu → ℕ → TransportState × UpperLayer
  transport_state_ack s p tick = elim p.packet_type [
    | Packet.ack ↦
        if p.transaction_id == s.transaction_id
        then (if s.expect_response then (response, record s { timestamp = tick }) else (success, s))
        else (ack, s)
    | Packet.protobuf ↦ elim p.message [
      | none ↦ (ack, s)
      | some message ↦ elim (client.which_to_mcu message) [
        | event_payload tag ↦ (ack, handle_event s message p.raw_data)
        | _ ↦ (ack, s)
      ]
    ]
  ]

  unfoldable pub transport_state_response :
      UpperLayer → RxPacket ToMcu → TransportState × UpperLayer
  transport_state_response s p = elim p.packet_type [
    | Packet.ack ↦ (response, s)
    | Packet.protobuf ↦ elim p.message [
      | none ↦ (response, s)
      | some message ↦ elim (client.which_to_mcu message) [
        | response_payload tag ↦ if tag == s.tag then (success, s) else (response, s)
        | event_payload tag ↦ (response, handle_event s message p.raw_data)
        | _ ↦ (response, s)
      ]
    ]
  ]

  -- The switch over the state when a packet has come: the state is assigned last.
  unfoldable pub handle_packet : UpperLayer → RxPacket ToMcu → ℕ → UpperLayer
  handle_packet s p tick = elim s.state [
    | idle ↦ let r = transport_state_idle s p in record r.1 { state = r.0 }
    | ack ↦ let r = transport_state_ack s p tick in record r.1 { state = r.0 }
    | response ↦ let r = transport_state_response s p in record r.1 { state = r.0 }
    | _ ↦ s
  ]

  -- No packet has come: the check for a timeout.
  unfoldable pub check_response_timeout : UpperLayer → ℕ → UpperLayer
  check_response_timeout s tick =
      let late = ltb message_response_timeout_ms (get_ms_since tick s.timestamp) in
      elim s.state [
        | ack ↦ if late then record s { state = timeout } else s
        | response ↦ if late then record s { state = timeout } else s
        | _ ↦ s
      ]

  -- The switch at the end of actionslink_bt_ul_rx.
  unfoldable pub conclude : UpperLayer → ℤ × UpperLayer
  conclude s = elim s.state [
    | success ↦ (pos 1, record s { state = idle })
    | error ↦ (negsuc 0, record s { state = idle })
    | timeout ↦ (negsuc 1, record s { state = idle })
    | _ ↦ (pos 0, s)
  ]

  -- What the result of the lower layer makes of the state.
  unfoldable pub react : ℤ → Option (RxPacket ToMcu) → UpperLayer → ℕ → UpperLayer
  react (pos (suc zero)) none s tick = s
  react (pos (suc zero)) (some p) s tick = handle_packet s p tick
  react (negsuc zero) packet s tick = record s { state = error }
  react (pos zero) packet s tick = check_response_timeout s tick
  react (pos (suc (suc n))) packet s tick = check_response_timeout s tick
  react (negsuc (suc n)) packet s tick = check_response_timeout s tick

  unfoldable pub actionslink_bt_ul_rx : UpperLayer → Poll → ℤ × UpperLayer
  actionslink_bt_ul_rx s poll =
      if s.stop_requested
      then (negsuc 0, s)
      else (let got =
            actionslink_bt_ll_rx codec config s.lower (s.line ++ poll.arrived) poll.lower_tick in
          conclude (react got.0 got.1 (record s { lower = got.2; line = got.3 }) poll.tick))

  -- The inner loop of actionslink_bt_ul_tx_rx over the polls that are made; `none` if they do not
  -- suffice.
  unfoldable pub wait_for_result : UpperLayer → List Poll → Option (ℤ × UpperLayer)
  wait_for_result s [] = none
  wait_for_result s (poll ∷ polls) =
      let out = actionslink_bt_ul_rx s poll in
      let rest = wait_for_result out.1 polls in if is_zero out.0 then rest else some out

  -- One round of the outer loop: whether the message has been confirmed.
  unfoldable pub attempt : UpperLayer → FromMcu → ℕ → List Poll → Option (Bool × UpperLayer)
  attempt s message tick polls =
      let out = actionslink_bt_ul_tx s message tick in
      if is_zero out.0
      then elim (wait_for_result out.1 polls) [ none ↦ none | some r ↦ some (is_one r.0, r.1) ]
      else some (false, out.1)

  -- The outer loop over its rounds, each with the tick of the sending and the polls made behind it.
  unfoldable pub attempts : UpperLayer → FromMcu → List (ℕ × List Poll) → Option (ℤ × UpperLayer)
  attempts s message [] = none
  attempts s message ((tick, polls) ∷ rounds) = elim (attempt s message tick polls) [
    | none ↦ none
    | some (true, s') ↦ some (pos 0, s')
    | some (false, s') ↦
        let counted = record s' { tx_retries = (s'.tx_retries + 1) % u8_mod } in
        elim (ltb counted.tx_retries max_number_of_tx_retries && not counted.stop_requested) [
          | true ↦ attempts counted message rounds
          | false ↦ some (negsuc 0, counted)
        ]
  ]

  unfoldable pub actionslink_bt_ul_tx_rx :
      UpperLayer → FromMcu → List (ℕ × List Poll) → Option (ℤ × UpperLayer)
  actionslink_bt_ul_tx_rx s message rounds =
      if s.stop_requested || s.within_event_handler
      then some (negsuc 0, s)
      else attempts (record s { tx_retries = 0 }) message rounds
