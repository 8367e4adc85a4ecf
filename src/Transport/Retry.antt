-- ===== src/Transport/Retry.antt =====
-- The retries of actionslink_bt_ul.c against a peer that sends nothing.
use mynd_firmware.Prelude.{
  ℕ, ◌+◌, ◌%◌, ◌<◌, ◌≡◌, ◌≢◌, refl, ap, ap₂, ◌∙◌, Bool, true, false, ◌&&◌, not, some, List, [], ◌∷◌,
  ◌++◌, append_assoc, length, arith, ltb,
}
use mynd_firmware.Prelude.Words.{u8_mod, u16_mod}
use mynd_firmware.Prelude.Int.{pos, negsuc}
use mynd_firmware.Link.Packet.{protobuf, Codec, IsCodec, Config, LowLayer, TxPacket, packet_bytes}
use mynd_firmware.Link.Escape.{hdlc_frame}
use mynd_firmware.Link.Tx.{actionslink_bt_ll_tx}
use mynd_firmware.Link.TxLaws.{encoded_payload, actionslink_bt_ll_tx-Sends}
use mynd_firmware.Transport.Messages.{
  idle, ack, Payload, request_payload, response_payload, event_payload, invalid, UpperLayer, Client,
  Poll,
}
use mynd_firmware.Transport.Upper.{
  actionslink_bt_ul_is_busy, send_packet, actionslink_bt_ul_tx, attempt, attempts,
  actionslink_bt_ul_tx_rx,
}
use mynd_firmware.Transport.Silence.{IsSilent, Rests, wait-IsSilent}

module _ {FromMcu ToMcu : Type 0} (codec : Codec FromMcu ToMcu) (config : Config)
    (client : Client FromMcu ToMcu) (message : FromMcu) (bs : List ℕ) where
  -- The frame of the message with a transaction id.
  abbrev pub frame_of : ℕ → List ℕ
  frame_of id = hdlc_frame (packet_bytes protobuf 0 id bs)

  -- The message is of a known type and encodes to `bs`, its frames fit, and the line takes them.
  pub record IsSendable : Type 0 where
    pub known : client.which_from_mcu message ≢ invalid
    pub small : config.tx_buffer_size < u16_mod
    pub encodes : encoded_payload codec config (some message) ≡ some bs
    pub fits : (id : ℕ) → ltb config.tx_buffer_size (length (frame_of id)) ≡ false
    pub taken :
        (frames : List (List ℕ)) (id : ℕ) → config.write_buffer_fn frames (frame_of id) ≡ pos 0

  module _ (codec-IsCodec : IsCodec codec) where
    abbrev packet_with : ℕ → TxPacket FromMcu
    packet_with id = record {
      packet_type = protobuf;
      value = 0;
      transaction_id = id;
      p_payload = some message;
    }

    lower_layer_sends :
        (lower : LowLayer) (id : ℕ)
        → IsSendable
        → let out = actionslink_bt_ll_tx codec config lower (packet_with id) in
          (out.0 ≡ pos 0) × (out.1.written ≡ lower.written ++ (frame_of id ∷ []))
    lower_layer_sends lower id k =
        let r =
          actionslink_bt_ll_tx-Sends codec-IsCodec config lower (packet_with id) bs k.small
            k.encodes in
        (
          ground (arith, r.result, k.fits id, k.taken lower.written id),
          ground (arith, r.frames, k.fits id),
        )

    send_packet-Rests :
        (s : UpperLayer) (tag : ℕ) (expect : Bool) (retries id : ℕ) (fs : List (List ℕ))
        → IsSendable
        → Rests s ack retries id fs
        → let out = send_packet codec config client s message tag expect in
          (out.0 ≡ pos 0)
          × (out.1.timestamp ≡ s.timestamp)
          × Rests out.1 ack retries ((id + 1) % u8_mod) (fs ++ (frame_of id ∷ []))
    unfolding send_packet
    send_packet-Rests s tag expect retries id fs k r =
        let sent = lower_layer_sends s.lower s.next_tx_transaction_id k in
        rw (sent.0) (
          refl,
          refl,
          record {
            state = r.state;
            running = r.running;
            no_input = r.no_input;
            counted = r.counted;
            next_id = ap (λ i. (i + 1) % u8_mod) r.next_id;
            frames = sent.1 ∙ ap₂ (λ l i. l ++ (frame_of i ∷ [])) r.frames r.next_id;
          },
        )

    abbrev started : UpperLayer → ℕ → UpperLayer
    started s tick = record s { state = ack; timestamp = tick }

    tx_sends :
        (s : UpperLayer) (tick : ℕ) (which : Payload)
        → client.which_from_mcu message ≡ which
        → which ≢ invalid
        → s.stop_requested ≡ false
        → s.state ≡ idle
        → (tag : ℕ) × (expect : Bool) × (actionslink_bt_ul_tx codec config client s message tick
            ≡ send_packet codec config client (started s tick) message tag expect)
    unfolding actionslink_bt_ul_tx actionslink_bt_ul_is_busy
    tx_sends s tick (request_payload tag) e known running at_idle = (tag, true, ground arith)
    tx_sends s tick (response_payload tag) e known running at_idle = (tag, false, ground arith)
    tx_sends s tick (event_payload tag) e known running at_idle = (tag, false, ground arith)
    tx_sends s tick invalid e known running at_idle = absurd (known refl)

    tx-Rests :
        (s : UpperLayer) (tick retries id : ℕ) (fs : List (List ℕ))
        → IsSendable
        → Rests s idle retries id fs
        → let out = actionslink_bt_ul_tx codec config client s message tick in
          (out.0 ≡ pos 0)
          × (out.1.timestamp ≡ tick)
          × Rests out.1 ack retries ((id + 1) % u8_mod) (fs ++ (frame_of id ∷ []))
    tx-Rests s tick retries id fs k r =
        let (tag, expect, e) =
          tx_sends s tick (client.which_from_mcu message) refl k.known r.running r.state in
        rw (e) (
          send_packet-Rests (started s tick) tag expect retries id fs k (record {
            state = refl;
            running = r.running;
            no_input = r.no_input;
            counted = r.counted;
            next_id = r.next_id;
            frames = r.frames;
          }))

    attempt-IsSilent :
        (s : UpperLayer) (tick : ℕ) (polls : List Poll) (retries id : ℕ) (fs : List (List ℕ))
        → IsSendable
        → Rests s idle retries id fs
        → IsSilent tick polls
        → (s' : UpperLayer) × (attempt codec config client s message tick polls ≡ some (false, s'))
          × Rests s' idle retries ((id + 1) % u8_mod) (fs ++ (frame_of id ∷ []))
    unfolding attempt
    attempt-IsSilent s tick polls retries id fs k r h =
        let t = tx-Rests s tick retries id fs k r in
        let (s', waited, rests) =
          wait-IsSilent codec config client
            (actionslink_bt_ul_tx codec config client s message tick).1 polls retries
            ((id + 1) % u8_mod) (fs ++ (frame_of id ∷ [])) t.2 (rw (t.1) h) in
        (s', rw (t.0, waited) refl, rests)

    counted-Rests :
        (s : UpperLayer) (retries id : ℕ) (fs : List (List ℕ))
        → Rests s idle retries id fs
        → Rests
            (record s { tx_retries = (s.tx_retries + 1) % u8_mod })
            idle
            ((retries + 1) % u8_mod)
            id
            fs
    counted-Rests s retries id fs r = record {
      state = r.state;
      running = r.running;
      no_input = r.no_input;
      counted = ap (λ n. (n + 1) % u8_mod) r.counted;
      next_id = r.next_id;
      frames = r.frames;
    }

    abbrev counted : UpperLayer → UpperLayer
    counted s = record s { tx_retries = (s.tx_retries + 1) % u8_mod }

    abbrev goes_on : UpperLayer → Bool
    goes_on s = ltb s.tx_retries 2 && not s.stop_requested

    failed_round :
        (s s' : UpperLayer) (round : ℕ × List Poll) (rounds : List (ℕ × List Poll))
        → attempt codec config client s message round.0 round.1 ≡ some (false, s')
        → attempts codec config client s message (round ∷ rounds) ≡ (elim (goes_on (counted s')) [
          | true ↦ attempts codec config client (counted s') message rounds
          | false ↦ some (negsuc 0, counted s')
        ])
    unfolding attempts
    failed_round s s' round rounds e = rw (e, attempts) refl

    two_failed_rounds :
        (s s₁ s₂ : UpperLayer) (first second : ℕ × List Poll)
        → attempt codec config client s message first.0 first.1 ≡ some (false, s₁)
        → attempt codec config client (counted s₁) message second.0 second.1 ≡ some (false, s₂)
        → goes_on (counted s₁) ≡ true
        → goes_on (counted s₂) ≡ false
        → attempts codec config client s message (first ∷ second ∷ []) ≡ some (negsuc 0, counted s₂)
    two_failed_rounds s s₁ s₂ first second e₁ e₂ on off =
        failed_round s s₁ first (second ∷ []) e₁
        ∙ ap
            (λ b. elim b [
              | true ↦ attempts codec config client (counted s₁) message (second ∷ [])
              | false ↦ some (negsuc 0, counted s₁)
            ])
            on
        ∙ failed_round (counted s₁) s₂ second [] e₂
        ∙ ap
            (λ b. elim b [
              | true ↦ attempts codec config client (counted s₂) message []
              | false ↦ some (negsuc 0, counted s₂)
            ])
            off

    tx_rx_lem :
        (s : UpperLayer) (rounds : List (ℕ × List Poll))
        → s.stop_requested ≡ false
        → s.within_event_handler ≡ false
        → actionslink_bt_ul_tx_rx codec config client s message rounds
          ≡ attempts codec config client (record s { tx_retries = 0 }) message rounds
    unfolding actionslink_bt_ul_tx_rx
    tx_rx_lem s rounds e w = ground arith

    -- A peer that never answers. The layer is idle, communication is allowed, no event handler is
    -- running and the line is empty; the message is of a known type and encodes to `bs`, and its frames
    -- fit the buffer and are taken by the line; behind each of two sendings the layer polls an empty line until
    -- more than 300 ms have passed. Then sending with retries returns -1 behind the second; the frame has
    -- been handed over exactly twice, with the next transaction id and the one behind it (modulo 256),
    -- and nothing else has; and the layer is idle.
    pub silent_peer :
        (s : UpperLayer) (retries id : ℕ) (fs : List (List ℕ)) (first second : ℕ × List Poll)
        → IsSendable
        → Rests s idle retries id fs
        → s.within_event_handler ≡ false
        → IsSilent first.0 first.1
        → IsSilent second.0 second.1
        → (s' : UpperLayer) × (actionslink_bt_ul_tx_rx codec config client s message
              (first ∷ second ∷ [])
            ≡ some (negsuc 0, s'))
          × Rests s' idle 2
              ((id + 2) % u8_mod)
              (fs ++ (frame_of id ∷ frame_of ((id + 1) % u8_mod) ∷ []))
    silent_peer s retries id fs first second k r w h₁ h₂ =
        let fresh = record s { tx_retries = 0 } in
        let (s₁, a₁, r₁) =
          attempt-IsSilent fresh first.0 first.1 0 id fs k
            (record {
              state = r.state;
              running = r.running;
              no_input = r.no_input;
              counted = refl;
              next_id = r.next_id;
              frames = r.frames;
            })
            h₁ in
        let c₁ = record s₁ { tx_retries = (s₁.tx_retries + 1) % u8_mod } in
        let (s₂, a₂, r₂) =
          attempt-IsSilent c₁ second.0 second.1 1 ((id + 1) % u8_mod) (fs ++ (frame_of id ∷ [])) k
            (counted-Rests s₁ 0 ((id + 1) % u8_mod) (fs ++ (frame_of id ∷ [])) r₁) h₂ in
        let r' =
          counted-Rests s₂ 1 (((id + 1) % u8_mod + 1) % u8_mod)
            (fs ++ (frame_of id ∷ []) ++ (frame_of ((id + 1) % u8_mod) ∷ [])) r₂ in
        (
          counted s₂,
          tx_rx_lem s (first ∷ second ∷ []) r.running w
              ∙ two_failed_rounds fresh s₁ s₂ first second a₁ a₂
                  (ground (arith, r₁.counted, r₁.running)) (ground (arith, r₂.counted)),
          record {
            state = r'.state;
            running = r'.running;
            no_input = r'.no_input;
            counted = r'.counted;
            next_id = r'.next_id ∙ omega arith;
            frames =
                r'.frames ∙ append_assoc fs (frame_of id ∷ []) (frame_of ((id + 1) % u8_mod) ∷ []);
          },
        )
