-- ===== src/Core/Tests.antt =====
-- Small runs of the filters of libs/core_utils.
use mynd_firmware.Prelude.{ℕ, ◌≡◌, refl, List, [], ◌∷◌, true, false, none, some, inl, ◌==◌}
use mynd_firmware.Prelude.Int.{ℤ, pos}
use mynd_firmware.Core.Hysteresis.{hysteresis, critical_after, IsCritical, hysteresis-IsCritical}
use mynd_firmware.Prelude.Words.{get_ms_since}
use mynd_firmware.Core.Monitor.{
  Monitor, Sampled, start_internal, stop_monitor, compare, take_value, query, query_in_time,
  call_monitor, call_all,
}
use mynd_firmware.Core.Ewma.{ewma_init, ewma_after, ewma_get, ewma_update}

abbrev temperatures : List ℤ
temperatures = pos 42 ∷ pos 46 ∷ pos 30 ∷ []

stays_critical_42 : critical_after (pos 45) (pos 40) temperatures ≡ true
unfolding critical_after hysteresis
stays_critical_42 = refl

hysteresis-IsCritical_example :
    (critical_after (pos 45) (pos 40) temperatures ≡ true
      → IsCritical (pos 45) (pos 40) temperatures)
    × (IsCritical (pos 45) (pos 40) temperatures
        → critical_after (pos 45) (pos 40) temperatures ≡ true)
hysteresis-IsCritical_example = hysteresis-IsCritical (pos 45) (pos 40) temperatures (inl refl)

started_at_zero : ewma_get 4 (ewma_after 4 (ewma_init 4 0) (4095 ∷ [])) ≡ 255
unfolding ewma_get ewma_after ewma_init ewma_update
started_at_zero = refl

-- A monitor of a number every 100 ms, started at 1000, and what it reads.
abbrev built : Monitor ℕ
built = record {
  is_running = false;
  value = none;
  last_tick_ms = 0;
  last_change_tick_ms = 0;
  delay_after_start_ms = 0;
  has_predicate = false;
  changes = [];
}

abbrev read_at : ℕ → ℕ → Sampled ℕ
read_at tick v = record { tick = tick; predicate = true; got = some v }

abbrev readings : List (Sampled ℕ)
readings = read_at 1050 4 ∷ read_at 1100 5 ∷ read_at 1200 5 ∷ read_at 1300 6 ∷ []

abbrev monitored : ℕ → Monitor ℕ
monitored pause =
    call_all (λ a b. a == b) (record { period_ms = 100; pause_after_change = pause }) readings
      (start_internal 1000 none 0 false built)

reports_changes : (monitored 0).changes ≡ (5, 6) ∷ (5, 5) ∷ []
unfolding call_all call_monitor query_in_time query take_value compare start_internal get_ms_since
reports_changes = refl

blind_with_pause : (monitored 500).changes ≡ []
unfolding call_all call_monitor query_in_time query take_value compare start_internal get_ms_since
blind_with_pause = refl

forgets_when_stopped : (stop_monitor (monitored 0)).value ≡ none
unfolding stop_monitor
forgets_when_stopped = refl
