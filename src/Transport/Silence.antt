-- ===== src/Transport/Silence.antt =====
-- actionslink_bt_ul.c against a peer that sends nothing: the polls up to the timeout.
use mynd_firmware.Prelude.{
  ℕ, ◌<◌, ◌≡◌, ◌⊎◌, inl, inr, refl, ap, ap₂, ◌∙◌, Bool, true, false, some, List, [], ◌∷◌, ◌++◌,
  arith, ltb, Bool-cases,
}
use mynd_firmware.Prelude.Words.{get_ms_since}
use mynd_firmware.Prelude.Int.{pos, negsuc}
use mynd_firmware.Link.Packet.{Codec, Config}
use mynd_firmware.Link.Rx.{actionslink_bt_ll_rx, check_timeout, reset_transport_state}
use mynd_firmware.Transport.Messages.{TransportState, idle, ack, UpperLayer, Client, Poll}
use mynd_firmware.Transport.Upper.{
  check_response_timeout, conclude, react, actionslink_bt_ul_rx, wait_for_result,
  message_response_timeout_ms,
}
use mynd_firmware.Transport.Protocol.{running_lem}

-- Polls at which nothing arrives, up to one that is more than 300 ms behind the timestamp.
abbrev pub IsSilent : ℕ → List Poll → Type 0
IsSilent timestamp [] = ⊥
IsSilent timestamp (p ∷ polls) =
    (p.arrived ≡ [])
    × ((message_response_timeout_ms < get_ms_since p.tick timestamp) ⊎ IsSilent timestamp polls)

-- What a silent exchange leaves: the layer at rest, and the frames `fs` handed over.
pub record Rests (s : UpperLayer) (st : TransportState) (retries id : ℕ) (fs : List (List ℕ))
    : Type 0 where
  pub state : s.state ≡ st
  pub running : s.stop_requested ≡ false
  pub no_input : s.line ≡ []
  pub counted : s.tx_retries ≡ retries
  pub next_id : s.next_tx_transaction_id ≡ id
  pub frames : s.lower.written ≡ fs

module _ {FromMcu ToMcu : Type 0} (codec : Codec FromMcu ToMcu) (config : Config)
    (client : Client FromMcu ToMcu) where
  -- A poll of a silent line.
  quiet_poll :
      (s : UpperLayer) (p : Poll) (retries id : ℕ) (fs : List (List ℕ))
      → Rests s ack retries id fs
      → p.arrived ≡ []
      → actionslink_bt_ul_rx codec config client s p
        ≡ conclude codec config client (
            check_response_timeout codec config client
              (record s { lower = check_timeout s.lower p.lower_tick; line = [] })
              p.tick)
  unfolding react actionslink_bt_ll_rx
  quiet_poll s p retries id fs r e =
      running_lem codec config client s p r.running
      ∙ ap
          (λ input.
            let got = actionslink_bt_ll_rx codec config s.lower input p.lower_tick in
            conclude codec config client (
              react codec config client got.0 got.1 (record s { lower = got.2; line = got.3 })
                p.tick))
          (ap₂ (λ a b. a ++ b) r.no_input e)

  abbrev late : UpperLayer → Poll → Bool
  late s p = ltb message_response_timeout_ms (get_ms_since p.tick s.timestamp)

  -- The layer behind a silent poll.
  abbrev polled : UpperLayer → Poll → UpperLayer
  polled s p = record s { lower = check_timeout s.lower p.lower_tick; line = [] }

  late_poll :
      (s : UpperLayer) (p : Poll) (retries id : ℕ) (fs : List (List ℕ))
      → Rests s ack retries id fs
      → p.arrived ≡ []
      → late s p ≡ true
      → actionslink_bt_ul_rx codec config client s p
        ≡ (negsuc 1, record (polled s p) { state = idle })
  unfolding check_response_timeout conclude
  late_poll s p retries id fs r e h = quiet_poll s p retries id fs r e ∙ ground (arith, r.state, h)

  early_poll :
      (s : UpperLayer) (p : Poll) (retries id : ℕ) (fs : List (List ℕ))
      → Rests s ack retries id fs
      → p.arrived ≡ []
      → late s p ≡ false
      → actionslink_bt_ul_rx codec config client s p ≡ (pos 0, polled s p)
  unfolding check_response_timeout conclude
  early_poll s p retries id fs r e h = quiet_poll s p retries id fs r e ∙ ground (arith, r.state, h)

  polled-Rests :
      (s : UpperLayer) (p : Poll) (st : TransportState) (retries id : ℕ) (fs : List (List ℕ))
      → Rests s st retries id fs
      → Rests (polled s p) st retries id fs
  unfolding check_timeout reset_transport_state
  polled-Rests s p st retries id fs r = record {
    state = r.state;
    running = r.running;
    no_input = refl;
    counted = r.counted;
    next_id = r.next_id;
    frames = ground (arith, r.frames);
  }

  pub wait-IsSilent :
      (s : UpperLayer) (polls : List Poll) (retries id : ℕ) (fs : List (List ℕ))
      → Rests s ack retries id fs
      → IsSilent s.timestamp polls
      → (s' : UpperLayer) × (wait_for_result codec config client s polls ≡ some (negsuc 1, s'))
        × Rests s' idle retries id fs
  unfolding wait_for_result
  wait-IsSilent s [] retries id fs r h = absurd h
  wait-IsSilent s (p ∷ polls) retries id fs r h = elim (Bool-cases (late s p)) [
    | inl l ↦
        let k = polled-Rests s p ack retries id fs r in
        (
          record (polled s p) { state = idle },
          rw (late_poll s p retries id fs r h.0 l) refl,
          record {
            state = refl;
            running = k.running;
            no_input = k.no_input;
            counted = k.counted;
            next_id = k.next_id;
            frames = k.frames;
          },
        )
    | inr l ↦ rw (early_poll s p retries id fs r h.0 l) (
        wait-IsSilent (polled s p) polls retries id fs (polled-Rests s p ack retries id fs r)
          (elim h.1 [ inl now ↦ absurd (ground (arith, now, l)) | inr later ↦ later ]))
  ]
