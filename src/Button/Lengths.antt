-- ===== src/Button/Lengths.antt =====
-- How long a press is that button_handler.c reports while the button is held.
use mynd_firmware.Prelude.{
  ℕ, ◌+◌, ◌*◌, ◌/◌, ◌%◌, ◌≤◌, ◌<◌, ◌≡◌, ◌≢◌, inl, inr, refl, ap, Bool, true, false, ◌&&◌, Option,
  none, some, List, [], ◌∷◌, ◌++◌, arith, leb, ◌==◌, if◌then◌else◌, Bool-cases, Option-cases, All,
}
use mathlib.Core.Path.{subst}
use mynd_firmware.Prelude.Words.{get_ms_since}
use mynd_firmware.Button.Types.{
  pressed, Callback, Button, Config, single_press, hold_event, longer, input_event_is_medium_press,
  input_event_is_long_press, input_event_is_very_long_press, input_event_is_very_very_long_press,
}
use mynd_firmware.Button.Handler.{
  user_callback, event_of_count, lengthen, first_presses, many_presses, send_press_event,
  send_hold_event, hold_press, button_state_pressed,
}

module _ (config : Config) where
  -- The durations of the configuration are in order.
  pub record IsAscending : Type 0 where
    pub medium_long : config.medium_press_duration_ms ≤ config.long_press_duration_ms
    pub long_very : config.long_press_duration_ms ≤ config.very_long_press_duration_ms
    pub very_very : config.very_long_press_duration_ms ≤ config.very_very_long_press_duration_ms

  -- The length that a press of `ms` milliseconds may be reported with: 1 for short, 2 for medium, and
  -- so on up to 5. It is the tens of an event's number.
  unfoldable pub allowed : ℕ → ℕ
  allowed ms =
      if leb config.very_very_long_press_duration_ms ms
      then 5
      else if leb config.very_long_press_duration_ms ms
      then 4
      else if leb config.long_press_duration_ms ms
      then 3
      else if leb config.medium_press_duration_ms ms
      then 2
      else 1

  -- The event that was sent last is no event, or a press of an allowed length of one, two or three.
  abbrev pub IsWithin : ℕ → ℕ → Type 0
  IsWithin ms event = (event / 10 ≤ allowed ms) × (event % 10 ≤ 2) × (event ≤ 52)

  -- A call without the release bit reports a press of an allowed length at the most.
  abbrev pub IsTimely : ℕ → Callback → Type 0
  IsTimely ms c = c.event < 128 → c.event / 10 ≤ allowed ms

  -- Between two contexts: the calls that were made.
  pub record Reports (ms : ℕ) (s s' : Button) : Type 0 where
    pub within : IsWithin ms s'.last_press_event_sent
    pub made : List Callback
    pub behind : s'.calls ≡ made ++ s.calls
    pub timely : All (IsTimely ms) made

  allowed_mono : (m n : ℕ) → IsAscending → m ≤ n → allowed m ≤ allowed n
  unfolding allowed
  allowed_mono m n a h = ground (arith, a)

  allowed_pos : (m : ℕ) → 1 ≤ allowed m
  unfolding allowed
  allowed_pos m = ground arith

  module _ (now : ℕ) where
    lengthen-Reports :
        (ms b : ℕ) (s : Button) (sent : Bool)
        → IsWithin ms s.last_press_event_sent
        → (sent ≡ false
            → (s.last_press_event_sent / 10 + 1 ≤ allowed ms) × (s.last_press_event_sent ≤ 42))
        → Reports ms s (lengthen config now sent b s)
    unfolding lengthen
    lengthen-Reports ms b s true w h = record { within = w; made = []; behind = refl; timely = tt }
    lengthen-Reports ms b s false w h = record {
      within = omega (arith, w, h refl);
      made = record { buttons = b; event = longer s.last_press_event_sent; repeat_count = 0 } ∷ [];
      behind = refl;
      timely = (λ lt. omega (arith, w, h refl), tt);
    }

    -- The same of the branches that may return early.
    abbrev ReportsOr : ℕ → Button → Option Button → Type 0
    ReportsOr ms s none = Unit
    ReportsOr ms s (some s') = Reports ms s s'

    short_press : (ms event : ℕ) → event ≤ 12 → 10 ≤ event → IsWithin ms event
    short_press ms event h k = omega (arith, h, k, allowed_pos ms)

    first_presses-Reports :
        (ms b : ℕ) (s : Button)
        → IsWithin ms s.last_press_event_sent
        → ReportsOr ms s (first_presses config now ms b s)
    unfolding first_presses
    first_presses-Reports ms b s w =
        let event = event_of_count s.consecutive_press_count in
        let short : IsWithin ms event = short_press ms event (ground arith) (ground arith) in
        let sent : Reports ms s
            (record (user_callback b event 0 (record s { last_press_event_sent = event })) {
              last_hold_event_tick_ms = now;
            }) =
          record {
            within = short;
            made = record { buttons = b; event = event; repeat_count = 0 } ∷ [];
            behind = refl;
            timely = (λ lt. short.0, tt);
          } in
        let same : Reports ms s s = record { within = w; made = []; behind = refl; timely = tt } in
        ground (arith, sent, same)

    abbrev call : ℕ → ℕ → ℕ → Callback
    call buttons event repeat_count = record {
      buttons = buttons;
      event = event;
      repeat_count = repeat_count;
    }

    many_presses-Reports :
        (ms b : ℕ) (s : Button)
        → IsWithin ms s.last_press_event_sent
        → Reports ms s (many_presses config now b s)
    unfolding many_presses
    many_presses-Reports ms b s w =
        let same : Reports ms s s = record { within = w; made = []; behind = refl; timely = tt } in
        let short : 10 < 128 → 1 ≤ allowed ms = λ lt. allowed_pos ms in
        let end : 138 < 128 → 13 ≤ allowed ms = λ lt. absurd (omega arith) in
        elim (Bool-cases (s.last_press_event_sent == single_press)) [
          | inl e ↦ rw (e) same
          | inr n ↦ elim (Bool-cases (s.consecutive_press_count == 4)) [
            | inl four ↦
                rw (n, four)
                  (record {
                    within = short_press ms single_press (omega arith) (omega arith);
                    made =
                        call b 10 s.consecutive_press_count
                        ∷ call s.last_button_pressed 138 0
                        ∷ call s.last_button_pressed 10 2
                        ∷ call s.last_button_pressed 138 0
                        ∷ call s.last_button_pressed 10 1
                        ∷ call s.last_button_pressed 138 0
                        ∷ call s.last_button_pressed 10 0
                        ∷ [];
                    behind = refl;
                    timely = (short, (end, (short, (end, (short, (end, (short, tt)))))));
                  })
            | inr other ↦
                rw (n, other)
                  (record {
                    within = short_press ms single_press (omega arith) (omega arith);
                    made = call b 10 s.consecutive_press_count ∷ [];
                    behind = refl;
                    timely = (short, tt);
                  })
          ]
        ]

    -- A press that is within the allowed length, and not of it, can grow.
    can_grow :
        (ms last k : ℕ)
        → allowed ms ≡ k
        → k < 6
        → IsWithin ms last
        → (leb (k * 10) last && leb last (k * 10 + 2)) ≡ false
        → (last / 10 + 1 ≤ allowed ms) × (last ≤ 42)
    can_grow ms last k a h w e = ground (arith, a, w)

    send_press_event-Reports :
        (ms b : ℕ) (s : Button)
        → IsWithin ms s.last_press_event_sent
        → ReportsOr ms s (send_press_event config now ms b s)
    unfolding send_press_event allowed
    send_press_event-Reports ms b s w =
        let last = s.last_press_event_sent in
        let five = lengthen-Reports ms b s (input_event_is_very_very_long_press last) w in
        let four = lengthen-Reports ms b s (input_event_is_very_long_press last) w in
        let three = lengthen-Reports ms b s (input_event_is_long_press last) w in
        let two = lengthen-Reports ms b s (input_event_is_medium_press last) w in
        elim (Bool-cases (leb config.very_very_long_press_duration_ms ms)) [
          | inl h₅ ↦ rw (h₅) (five (can_grow ms last 5 (ground (arith, h₅)) (omega arith) w))
          | inr n₅ ↦ elim (Bool-cases (leb config.very_long_press_duration_ms ms)) [
            | inl h₄ ↦
                rw (n₅, h₄) (four (can_grow ms last 4 (ground (arith, n₅, h₄)) (omega arith) w))
            | inr n₄ ↦ elim (Bool-cases (leb config.long_press_duration_ms ms)) [
              | inl h₃ ↦
                  rw (n₅, n₄, h₃)
                    (three (can_grow ms last 3 (ground (arith, n₅, n₄, h₃)) (omega arith) w))
              | inr n₃ ↦ elim (Bool-cases (leb config.medium_press_duration_ms ms)) [
                | inl h₂ ↦
                    rw (n₅, n₄, n₃, h₂)
                      (two (can_grow ms last 2 (ground (arith, n₅, n₄, n₃, h₂)) (omega arith) w))
                | inr n₂ ↦ elim (Bool-cases (leb s.consecutive_press_count 3)) [
                  | inl few ↦ rw (n₅, n₄, n₃, n₂, few) (first_presses-Reports ms b s w)
                  | inr many ↦ rw (n₅, n₄, n₃, n₂, many) (many_presses-Reports ms b s w)
                ]
              ]
            ]
          ]
        ]

    send_hold_event-Reports :
        (ms b : ℕ) (s s' : Button)
        → Reports ms s s'
        → Reports ms s (send_hold_event config now b s')
    unfolding send_hold_event
    send_hold_event-Reports ms b s s' r =
        elim (Bool-cases
          (leb config.hold_event_interval_ms (get_ms_since now s'.last_hold_event_tick_ms))) [
            | inl due ↦ rw (due) (record {
              within = r.within;
              made = call b hold_event s'.hold_event_repeat_count ∷ r.made;
              behind = ap (λ l. call b hold_event s'.hold_event_repeat_count ∷ l) r.behind;
              timely = (λ lt. omega (arith), r.timely);
            })
            | inr early ↦ rw (early) r
          ]

    hold_press-Reports :
        (ms b : ℕ) (s : Button)
        → IsWithin ms s.last_press_event_sent
        → Reports ms s (hold_press config now ms b s).1
    unfolding hold_press
    hold_press-Reports ms b s w =
        let sent = send_press_event-Reports ms b s w in
        elim (Option-cases (send_press_event config now ms b s)) [
          | inl e ↦
              rw (e, hold_press) (record { within = w; made = []; behind = refl; timely = tt })
          | inr (s', e) ↦
              rw (e, hold_press)
                (send_hold_event-Reports ms b s s' (subst (λ o. ReportsOr ms s o) e sent))
        ]

    hold_press-pressed : (ms b : ℕ) (s : Button) → (hold_press config now ms b s).0 ≡ pressed
    unfolding hold_press
    hold_press-pressed ms b s = ground arith

    held_lem :
        (b : ℕ) (s : Button)
        → b ≢ 0
        → b ≡ s.last_button_pressed
        → button_state_pressed config now b s
          ≡ hold_press config now (get_ms_since now s.press_start_tick_ms) b s
    unfolding button_state_pressed
    held_lem b s nz same = ground arith

    -- While the same button is held. The durations of the configuration ascend, the event that was sent last
    -- for the press was within the length allowed at an earlier time of the press (`before`
    -- milliseconds), and the button is still the one that was pressed. Then a call of
    -- button_state_pressed leaves the button pressed and its last event within the length allowed now,
    -- and every call that it makes of the user callback, unless with a release event, reports no
    -- greater length: a medium, long, very long or very very long press is never reported before its duration.
    pub held_button-Reports :
        (before b : ℕ) (s : Button)
        → IsAscending
        → b ≢ 0
        → b ≡ s.last_button_pressed
        → before ≤ get_ms_since now s.press_start_tick_ms
        → IsWithin before s.last_press_event_sent
        → let out = button_state_pressed config now b s in
          (out.0 ≡ pressed) × Reports (get_ms_since now s.press_start_tick_ms) s out.1
    held_button-Reports before b s a nz same h w =
        let ms = get_ms_since now s.press_start_tick_ms in
        rw (held_lem b s nz same) (
          hold_press-pressed ms b s,
          hold_press-Reports ms b s (omega (arith, w, allowed_mono before ms a h)),
        )
