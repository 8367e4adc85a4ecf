-- ===== src/Button/Tests.antt =====
-- The button handler at concrete inputs.
use mynd_firmware.Prelude.{◌≡◌, refl, true, false, none, arith}
use mynd_firmware.Prelude.Words.{get_ms_since}
use mynd_firmware.Button.Types.{pressed, Button, Config}
use mynd_firmware.Button.Handler.{zeroed, button_state_pressed}
use mynd_firmware.Button.Lengths.{IsAscending, Reports, allowed, held_button-Reports}

abbrev config : Config
config = record {
  buttons_num = 1;
  short_press_duration_ms = 30;
  medium_press_duration_ms = 1000;
  long_press_duration_ms = 2000;
  very_long_press_duration_ms = 5000;
  very_very_long_press_duration_ms = 8000;
  hold_event_interval_ms = 500;
  repeated_press_threshold_duration_ms = 400;
  list_of_buttons_with_repeated_press_support = none;
  immediate = false;
  enable_raw_press_release_events = true;
  enable_multitouch_support = false;
}

config-IsAscending : IsAscending config
config-IsAscending = record {
  medium_long = omega arith;
  long_very = omega arith;
  very_very = omega arith;
}

-- A button that has been held since tick 100 and was reported as a single press.
abbrev held : Button
held = record zeroed {
  last_button_pressed = 4;
  press_start_tick_ms = 100;
  consecutive_press_count = 1;
  last_press_event_sent = 10;
  state = pressed;
}

-- At tick 2200 the press is reported as a medium one, and at the next call as a long one.
held_button-Reports_example :
    let out = button_state_pressed config 2200 4 held in
    (out.0 ≡ pressed) × Reports config (get_ms_since 2200 100) held out.1
unfolding get_ms_since allowed
held_button-Reports_example =
    held_button-Reports config 2200 500 4 held config-IsAscending (λ e. omega (arith, e)) refl
      (omega arith) (omega arith)
