-- ===== src/Charge/Tests.antt =====
-- The charge controller at concrete inputs.
use mynd_firmware.Prelude.{◌≡◌, ◌≤◌, ◌<◌, refl, inr, List, [], ◌∷◌, Bool, true, false, not, ◌&&◌, ℕ}
use mynd_firmware.Prelude.Words.{get_ms_since}
use mynd_firmware.Prelude.Int.{pos}
use mynd_firmware.Charge.Controller.{
  Sample, Controller, inactive, not_connected, count, reset_counters, while_not_connected,
  while_inactive, next_status, process, process_all, initial_controller,
}
use mynd_firmware.Charge.Waiting.{after, threshold, Counts, LowSince, charging_waits}
use mynd_firmware.Charge.Safety.{
  IsApplied, is_active, is_enabled, controller-IsApplied, enabled_while_forbidden,
}

abbrev sample : Bool → Bool → ℕ → Sample
sample plugged allowed tick = record {
  battery_voltage_mv = 7500;
  battery_current_ma = pos 0;
  charger_ntc_allowed = allowed;
  ac_plugged = plugged;
  bfc_enabled = false;
  tick = tick;
}

-- Plugged in at tick 0, and charged behind five seconds of a low voltage.
controller-IsApplied_example :
    let c =
      process
        (sample true true 6000)
        (process_all (sample true true 0 ∷ sample true true 100 ∷ []) initial_controller) in
    IsApplied c.charger_status c.calls × (is_active c.charger_status && not (true && true) ≡ false)
controller-IsApplied_example =
    controller-IsApplied (sample true true 0 ∷ sample true true 100 ∷ []) (sample true true 6000)

abbrev plugged : Controller
plugged = record initial_controller { charger_status = inactive }

enabled_while_forbidden_example :
    let d =
      process_all
        (sample true false 2000 ∷ sample true false 3000 ∷ [])
        (process (sample false true 1000) plugged) in
    (d.charger_status ≡ not_connected) × (is_enabled d.calls ≡ true)
enabled_while_forbidden_example =
    enabled_while_forbidden plugged (sample false true 1000)
      (sample true false 2000 ∷ sample true false 3000 ∷ []) (inr refl) refl
      ((refl, refl), ((refl, refl), tt))

-- Plugged in at tick 0, with a low voltage at 100 and 700.
abbrev past : List Sample
past = sample true true 700 ∷ sample true true 100 ∷ sample true true 0 ∷ []

charging_waits_example :
    Counts false (sample true true 6000)
    × (7500 ≤ threshold false)
    × ((t : ℕ) × LowSince false t past × (5000 < get_ms_since 6000 t))
unfolding after process next_status while_not_connected while_inactive reset_counters count
    get_ms_since
charging_waits_example = charging_waits past (sample true true 6000) refl refl
