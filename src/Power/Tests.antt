-- ===== src/Power/Tests.antt =====
-- The system task at concrete messages.
use mynd_firmware.Prelude.{ℕ, ◌≡◌, ◌<◌, refl, List, [], ◌∷◌, Bool, true, false, none, inr}
use mynd_firmware.Prelude.Words.{get_ms_since}
use mynd_firmware.Power.State.{off, on, set_state, set_transition}
use mynd_firmware.Power.System.{
  System, Surroundings, hold_on, switch_on, prepare_off, power_state_on, power_state_off,
  set_power_state, on_message, check_idle_timeout, call_handler, complete_off, stamp_stream,
  is_timed_out,
}
use mynd_firmware.Power.Safety.{
  requests, cycles, IsSettled, Reach, Reach-IsSettled, here, next, message, idle,
}
use mynd_firmware.Power.Idle.{stamp_after, IsQuietSince, idle_power_off_waits}

abbrev at_tick : ℕ → Bool → Surroundings
at_tick tick streaming = record {
  tick = tick;
  is_multichain = false;
  is_charger_active = false;
  is_streaming = streaming;
  is_dfu_mode = false;
}

-- Behind the initialisation.
abbrev booted : System
booted = record {
  power_state = record { current = off; from = none; to = none };
  power_state_fn = power_state_off;
  last_activity_timestamp = 0;
  stream_inactive_timestamp = 0;
  off_timer_minutes = 10;
  off_timer_enabled = true;
  effects = [];
}

-- Behind an initialisation that found the supply of a USB host and held it.
abbrev plugged : System
plugged = record booted { effects = hold_on true ∷ [] }

plugged-IsSettled : IsSettled (true ∷ []) plugged
unfolding requests cycles
plugged-IsSettled = (0, inr (refl, refl, refl))

abbrev switched : System
switched = on_message (set_power_state on none) (at_tick 3000 false) plugged

abbrev switched_back : System
switched_back = on_message (set_power_state off none) (at_tick 9000 false) switched

switched-Reach : Reach plugged switched_back
switched-Reach =
    next (next here (message (set_power_state on none) (at_tick 3000 false)))
      (message (set_power_state off none) (at_tick 9000 false))

Reach-IsSettled_example :
    IsSettled (true ∷ []) (check_idle_timeout (at_tick 9100 false) switched_back)
Reach-IsSettled_example =
    Reach-IsSettled (true ∷ []) (next switched-Reach (idle (at_tick 9100 false))) plugged-IsSettled

requests_of_a_cycle : requests switched_back.effects ≡ false ∷ true ∷ true ∷ []
unfolding requests on_message call_handler switch_on prepare_off complete_off set_transition
    set_state
requests_of_a_cycle = refl

-- Quiet from 4000 ms on, and on since 3000.
abbrev quiet : System
quiet = record booted {
  power_state = record { current = on; from = none; to = none };
  power_state_fn = power_state_on;
  last_activity_timestamp = 3000;
  stream_inactive_timestamp = 4000;
}

abbrev calls : List Surroundings
calls = at_tick 5000 false ∷ at_tick 4000 false ∷ at_tick 3500 true ∷ []

stamp_of_calls : quiet.stream_inactive_timestamp ≡ stamp_after calls
unfolding stamp_after stamp_stream
stamp_of_calls = refl

switched_off_late :
    (check_idle_timeout (at_tick 604001 false) quiet).power_state_fn ≡ power_state_off
unfolding check_idle_timeout call_handler complete_off stamp_stream is_timed_out get_ms_since
switched_off_late = refl

idle_power_off_waits_example :
    (◌≡◌ {A = Bool} true true)
    × (600000 < get_ms_since 604001 3000)
    × ((t : ℕ) × IsQuietSince t (at_tick 604001 false ∷ calls) × (600000 < get_ms_since 604001 t))
idle_power_off_waits_example =
    idle_power_off_waits calls (at_tick 604001 false) quiet refl stamp_of_calls switched_off_late
