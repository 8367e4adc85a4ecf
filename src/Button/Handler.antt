-- ===== src/Button/Handler.antt =====
-- button_handler.c for one configuration, at a tick `now` that does not advance within a call of
-- button_handler_process; `b` is the state of the buttons of one context (`b_state`).
use Prim.Native.Nat.{bit_and}
use mynd_firmware.Prelude.{
  ℕ, zero, suc, ◌+◌, ◌%◌, ◌^◌, Bool, true, false, ◌&&◌, ◌||◌, not, Option, none, some, List, [],
  ◌∷◌, ltb, leb, ◌==◌, if◌then◌else◌,
}
use mynd_firmware.Prelude.Words.{u16_mod, get_ms_since}
use mynd_firmware.Button.Types.{
  ButtonState, released, debouncing, pressed, Callback, Button, Config, release_event, press_event,
  hold_event, single_press, double_press, triple_press, with_release_bit, longer,
  input_event_is_medium_press, input_event_is_long_press, input_event_is_very_long_press,
  input_event_is_very_very_long_press,
}

abbrev pub user_callback : ℕ → ℕ → ℕ → Button → Button
user_callback buttons event repeat_count s = record s {
  calls = record { buttons = buttons; event = event; repeat_count = repeat_count } ∷ s.calls;
}

-- A context behind memset.
abbrev pub zeroed : Button
zeroed = record {
  last_button_pressed = 0;
  debouncing_button_state = 0;
  last_hold_event_tick_ms = 0;
  press_start_tick_ms = 0;
  consecutive_press_count = 0;
  hold_event_repeat_count = 0;
  last_press_event_sent = 0;
  state = released;
  calls = [];
}

unfoldable pub copies : ℕ → Button → List Button
copies zero s = []
copies (suc n) s = s ∷ copies n s

-- button_handler_init for a configuration that is not null, where both allocations succeed.
unfoldable pub button_handler_init : Config → Option (List Button)
button_handler_init config =
    if not config.enable_multitouch_support && not (config.buttons_num == 1)
    then none
    else some (copies config.buttons_num zeroed)

unfoldable pub is_listed : ℕ → List ℕ → Bool
is_listed button [] = false
is_listed button (x ∷ xs) = (button == x) || is_listed button xs

-- The event of 1 to 3 presses; the default of both switches is a single press.
abbrev pub event_of_count : ℕ → ℕ
event_of_count count =
    if count == 2 then double_press else if count == 3 then triple_press else single_press

unfoldable pub setup_new_press : ℕ → Button → Button
setup_new_press b s = record s {
  last_button_pressed = b;
  last_press_event_sent = release_event;
  consecutive_press_count = (s.consecutive_press_count + 1) % u16_mod;
  hold_event_repeat_count = 0;
}

-- A press and its release, for one of the first three presses (the `i`-th from 0).
abbrev pub missed_press : ℕ → Button → Button
missed_press i s =
    user_callback s.last_button_pressed (with_release_bit s.last_press_event_sent) 0
      (user_callback s.last_button_pressed s.last_press_event_sent i s)

-- The loop that sends the first three presses when the fourth has come.
abbrev pub send_missed_presses : Button → Button
send_missed_presses s =
    if s.consecutive_press_count == 4 then missed_press 2 (missed_press 1 (missed_press 0 s)) else s

module _ (config : Config) (now : ℕ) where
  unfoldable pub button_supports_repeated_press_detection : ℕ → Bool
  button_supports_repeated_press_detection button =
      elim config.list_of_buttons_with_repeated_press_support [
        | none ↦ true
        | some buttons ↦ is_listed button buttons
      ]

  -- `if (p_config->enable_raw_press_release_events)`
  abbrev pub raw_event : ℕ → ℕ → Button → Button
  raw_event buttons event s =
      if config.enable_raw_press_release_events then user_callback buttons event 0 s else s

  -- One of the four branches for long presses: the next length is sent unless it has been.
  unfoldable pub lengthen : Bool → ℕ → Button → Button
  lengthen sent b s =
      if sent
      then s
      else (let s' = record s { last_press_event_sent = longer s.last_press_event_sent } in
          user_callback b s'.last_press_event_sent 0 s')

  -- The branch for up to three presses: `none` for the early return.
  unfoldable pub first_presses : ℕ → ℕ → Button → Option Button
  first_presses ms b s =
      let event = event_of_count s.consecutive_press_count in
      if config.immediate
        || leb config.repeated_press_threshold_duration_ms ms
        || not (button_supports_repeated_press_detection b)
      then (if s.last_press_event_sent == event
          then some s
          else some (record (user_callback b event 0 (record s { last_press_event_sent = event })) {
            last_hold_event_tick_ms = now;
          }))
      else none

  -- The branch for the fourth press and later ones.
  unfoldable pub many_presses : ℕ → Button → Button
  many_presses b s =
      if s.last_press_event_sent == single_press
      then s
      else (let sent = send_missed_presses (record s { last_press_event_sent = single_press }) in
          record (user_callback b single_press sent.consecutive_press_count sent) {
            last_hold_event_tick_ms = now;
          })

  -- The chain of branches over the time since the press began.
  unfoldable pub send_press_event : ℕ → ℕ → Button → Option Button
  send_press_event ms b s =
      let last = s.last_press_event_sent in
      if leb config.very_very_long_press_duration_ms ms
      then some (lengthen (input_event_is_very_very_long_press last) b s)
      else if leb config.very_long_press_duration_ms ms
      then some (lengthen (input_event_is_very_long_press last) b s)
      else if leb config.long_press_duration_ms ms
      then some (lengthen (input_event_is_long_press last) b s)
      else if leb config.medium_press_duration_ms ms
      then some (lengthen (input_event_is_medium_press last) b s)
      else if leb s.consecutive_press_count 3
      then first_presses ms b s
      else some (many_presses b s)

  unfoldable pub send_hold_event : ℕ → Button → Button
  send_hold_event b s =
      if leb config.hold_event_interval_ms (get_ms_since now s.last_hold_event_tick_ms)
      then record (user_callback b hold_event s.hold_event_repeat_count s) {
        last_hold_event_tick_ms = now;
        hold_event_repeat_count = (s.hold_event_repeat_count + 1) % u16_mod;
      }
      else s

  -- The button is still held: the end of button_state_pressed.
  unfoldable pub hold_press : ℕ → ℕ → Button → ButtonState × Button
  hold_press ms b s = elim (send_press_event ms b s) [
    | none ↦ (pressed, s)
    | some s' ↦ (pressed, send_hold_event b s')
  ]

  -- The branch of button_state_pressed for a button that was released.
  unfoldable pub release_press : Button → ButtonState × Button
  release_press s =
      let raw = raw_event s.last_button_pressed release_event s in
      let missed =
        if (raw.last_press_event_sent == release_event) && leb 4 raw.consecutive_press_count
        then (let sent =
              send_missed_presses (record raw { last_press_event_sent = single_press }) in
            user_callback sent.last_button_pressed single_press sent.consecutive_press_count sent)
        else raw in
      if missed.last_press_event_sent == release_event then (released, missed) else (
        released,
        user_callback missed.last_button_pressed (with_release_bit missed.last_press_event_sent) 0
            missed,
      )

  unfoldable pub button_state_pressed : ℕ → Button → ButtonState × Button
  button_state_pressed b s =
      let ms = get_ms_since now s.press_start_tick_ms in
      if b == 0
      then release_press s
      else if not (b == s.last_button_pressed) && not config.enable_multitouch_support
      then (let raw = raw_event s.last_button_pressed release_event s in
          let ended =
            user_callback raw.last_button_pressed (with_release_bit raw.last_press_event_sent) 0
              raw in
          let begun = record ended { press_start_tick_ms = now } in
          if ltb 0 config.short_press_duration_ms
          then (debouncing, record begun { debouncing_button_state = b })
          else hold_press ms b (setup_new_press b (record begun { consecutive_press_count = 0 })))
      else hold_press ms b s

  -- The state that button_state_pressed returns is not used here.
  unfoldable pub start_press : ℕ → Button → Button
  start_press b s = (button_state_pressed b (setup_new_press b s)).1

  -- A press begins; `all` is the state of all buttons.
  unfoldable pub begin_press : ℕ → ℕ → Button → ButtonState × Button
  begin_press all b s =
      let counted =
        if not (b == s.last_button_pressed)
          || leb config.repeated_press_threshold_duration_ms
              (get_ms_since now s.press_start_tick_ms)
          || not (button_supports_repeated_press_detection all)
        then record s { consecutive_press_count = 0 }
        else s in
      let begun = raw_event b press_event (record counted { press_start_tick_ms = now }) in
      if ltb 0 config.short_press_duration_ms
      then (debouncing, record begun { debouncing_button_state = b })
      else (pressed, start_press b begun)

  -- No button: a press that was released before it could be told from a repeated one is sent late.
  unfoldable pub send_late_press : Button → Button
  send_late_press s =
      if (s.last_press_event_sent == release_event)
        && ltb 0 s.consecutive_press_count
        && leb config.repeated_press_threshold_duration_ms (get_ms_since now s.press_start_tick_ms)
      then (let event = event_of_count s.consecutive_press_count in
          user_callback s.last_button_pressed (with_release_bit event) 0 (
            user_callback s.last_button_pressed event 0
              (record s { last_press_event_sent = event })))
      else s

  unfoldable pub button_state_released : ℕ → ℕ → Button → ButtonState × Button
  button_state_released all b s =
      if b == 0 then (released, send_late_press s) else begin_press all b s

  unfoldable pub button_state_debouncing : ℕ → Button → ButtonState × Button
  button_state_debouncing b s =
      if b == 0
      then (released, raw_event s.debouncing_button_state release_event s)
      else (let settled =
            if b == s.debouncing_button_state
            then s
            else record s { debouncing_button_state = b; press_start_tick_ms = now } in
          if ltb config.short_press_duration_ms (get_ms_since now settled.press_start_tick_ms)
          then (
            pressed,
            start_press b (
                if settled.last_button_pressed == b
                then settled
                else record settled { consecutive_press_count = 0 }),
          )
          else (debouncing, settled))

  -- `p_config->enable_multitouch_support ? button_state & (1U << button_id) : button_state`
  abbrev pub own_state : ℕ → ℕ → ℕ
  own_state all button_id =
      if config.enable_multitouch_support then bit_and all (2 ^ button_id) else all

  -- The switch over the state.
  unfoldable pub dispatch : ButtonState → ℕ → ℕ → Button → ButtonState × Button
  dispatch released all b s = button_state_released all b s
  dispatch debouncing all b s = button_state_debouncing b s
  dispatch pressed all b s = button_state_pressed b s

  -- The body of the loop of button_handler_process.
  unfoldable pub process_button : ℕ → ℕ → Button → Button
  process_button all button_id s =
      let r = dispatch s.state all (own_state all button_id) s in record r.1 { state = r.0 }

  -- The loop, from a button on; the calls are those of all buttons.
  unfoldable pub process_from : ℕ → ℕ → List Callback → List Button → List Button
  process_from all button_id calls [] = []
  process_from all button_id calls (s ∷ buttons) =
      let s' = process_button all button_id (record s { calls = calls }) in
      s' ∷ process_from all (button_id + 1) s'.calls buttons

  unfoldable pub button_handler_process : ℕ → List Callback → List Button → List Button
  button_handler_process all calls buttons = process_from all 0 calls buttons
