-- ===== src/Button/Types.antt =====
-- The types of button_handler.c and the event identifiers of input_events.h.
use Prim.Native.Nat.{bit_or}
use mynd_firmware.Prelude.{ℕ, ◌+◌, ◌%◌, Bool, ◌&&◌, Option, List, leb}
use mynd_firmware.Prelude.Words.{u8_mod}

-- `button_handler_state_t`
pub data ButtonState : Type 0 where
  released debouncing pressed : ButtonState

-- One call of the user callback: the buttons, the event and the repeat count.
pub record Callback : Type 0 where
  pub buttons : ℕ
  pub event : ℕ
  pub repeat_count : ℕ

-- `struct single_button_ctx`, with the calls of the user callback that the handler has made, newest
-- first.
pub record Button : Type 0 where
  pub last_button_pressed : ℕ
  pub debouncing_button_state : ℕ
  pub last_hold_event_tick_ms : ℕ
  pub press_start_tick_ms : ℕ
  pub consecutive_press_count : ℕ
  pub hold_event_repeat_count : ℕ
  pub last_press_event_sent : ℕ
  pub state : ButtonState
  pub calls : List Callback

-- `button_handler_config_t`; the list of buttons with repeated presses is `none` where the pointer is
-- null, and `immediate` is the mode of repeated presses.
pub record Config : Type 0 where
  pub buttons_num : ℕ
  pub short_press_duration_ms : ℕ
  pub medium_press_duration_ms : ℕ
  pub long_press_duration_ms : ℕ
  pub very_long_press_duration_ms : ℕ
  pub very_very_long_press_duration_ms : ℕ
  pub hold_event_interval_ms : ℕ
  pub repeated_press_threshold_duration_ms : ℕ
  pub list_of_buttons_with_repeated_press_support : Option (List ℕ)
  pub immediate : Bool
  pub enable_raw_press_release_events : Bool
  pub enable_multitouch_support : Bool

-- The INPUT_EVENT_ID_… that the handler sends.
abbrev pub release_event : ℕ
release_event = 0

abbrev pub press_event : ℕ
press_event = 1

abbrev pub hold_event : ℕ
hold_event = 2

abbrev pub single_press : ℕ
single_press = 10

abbrev pub double_press : ℕ
double_press = 11

abbrev pub triple_press : ℕ
triple_press = 12

-- `event | INPUT_EVENT_PRESS_RELEASE_BIT`
abbrev pub with_release_bit : ℕ → ℕ
with_release_bit event = bit_or event 128

-- `event += INPUT_EVENT_PRESS_LENGTH_OFFSET` in the packed enumeration
abbrev pub longer : ℕ → ℕ
longer event = (event + 10) % u8_mod

abbrev pub input_event_is_medium_press : ℕ → Bool
input_event_is_medium_press event = leb 20 event && leb event 22

abbrev pub input_event_is_long_press : ℕ → Bool
input_event_is_long_press event = leb 30 event && leb event 32

abbrev pub input_event_is_very_long_press : ℕ → Bool
input_event_is_very_long_press event = leb 40 event && leb event 42

abbrev pub input_event_is_very_very_long_press : ℕ → Bool
input_event_is_very_very_long_press event = leb 50 event && leb event 52
