-- ===== src/Charge/Waiting.antt =====
-- How long the voltage of the battery must have been low before the charge controller charges it.
use mynd_firmware.Prelude.{
  ℕ, ◌≡◌, ◌≢◌, ◌≤◌, ◌<◌, ◌⊎◌, refl, sym, ap, ◌∙◌, List, [], ◌∷◌, Bool, true, false, Option, none,
  some, Bool-cases, inl, inr, ltb, if◌then◌else◌, arith,
}
use mynd_firmware.Prelude.Words.{get_ms_since}
use mynd_firmware.Charge.Safety.{process_status}
use mynd_firmware.Charge.Controller.{
  ChargerStatus, active, inactive, not_connected, fault, Controller, Sample, initial_controller,
  reset_counters, count, while_not_connected, while_inactive, while_active, next_status, process,
}

-- The controller behind some samples, newest first, from the constructor on.
unfoldable pub after : List Sample → Controller
after [] = initial_controller
after (x ∷ past) = process x (after past)

-- The threshold of a mode, and the time stamp of its counter.
abbrev pub threshold : Bool → ℕ
threshold bfc = if bfc then 7900 else 8100

abbrev stamp : Bool → Controller → Option ℕ
stamp bfc c = if bfc then c.battery_below_7900mv else c.battery_below_8100mv

-- A sample of a mode at which charging may begin.
pub record Counts (bfc : Bool) (x : Sample) : Type 0 where
  pub plugged : x.ac_plugged ≡ true
  pub allowed : x.charger_ntc_allowed ≡ true
  pub mode : x.bfc_enabled ≡ bfc

-- At a tick the controller was inactive and got a sample that counts, with a voltage at most the threshold; and it
-- has been inactive since then, with such a voltage at every sample that counts.
pub data LowSince (bfc : Bool) (t : ℕ) : List Sample → Type 0 where
  begun :
      {past : List Sample} {x : Sample}
      → (after past).charger_status ≡ inactive
      → Counts bfc x
      → x.tick ≡ t
      → x.battery_voltage_mv ≤ threshold bfc
      → LowSince bfc t (x ∷ past)
  lasted :
      {past : List Sample} {x : Sample}
      → (after past).charger_status ≡ inactive
      → (Counts bfc x → x.battery_voltage_mv ≤ threshold bfc)
      → LowSince bfc t past
      → LowSince bfc t (x ∷ past)

-- What a call makes of the time stamps is decided by the case of the switch.
stamp-process :
    (bfc : Bool) (x : Sample) (c : Controller)
    → stamp bfc (process x c) ≡ stamp bfc (next_status c.charger_status x c).1
unfolding process
stamp-process true x c = ground arith
stamp-process false x c = ground arith

-- Any way to become inactive resets both counters.
connected_resets :
    (bfc : Bool) (x : Sample) (c : Controller)
    → (while_not_connected x c).0 ≡ inactive
    → stamp bfc (while_not_connected x c).1 ≡ none
unfolding while_not_connected reset_counters
connected_resets true x c h = ground (arith, h)
connected_resets false x c h = ground (arith, h)

ended_resets :
    (bfc : Bool) (x : Sample) (c : Controller)
    → (while_active x c).0 ≡ inactive
    → stamp bfc (while_active x c).1 ≡ none
unfolding while_active reset_counters
ended_resets true x c h = ground (arith, h)
ended_resets false x c h = ground (arith, h)

-- A sample that counts, while inactive.
counted :
    (bfc : Bool) (x : Sample) (c : Controller)
    → Counts bfc x
    → stamp bfc (while_inactive x c).1
      ≡ (count (ltb (threshold bfc) x.battery_voltage_mv) x.tick (stamp bfc c)).1
unfolding while_inactive
counted true x c k = rw (k.plugged, k.allowed, k.mode) refl
counted false x c k = rw (k.plugged, k.allowed, k.mode) refl

mode_cases : (a b : Bool) → (a ≡ b) ⊎ (a ≢ b)
mode_cases true true = inl refl
mode_cases true false = inr (λ e. absurd (cc))
mode_cases false true = inr (λ e. absurd (cc))
mode_cases false false = inl refl

other_mode :
    (bfc : Bool) (x : Sample) (c : Controller)
    → x.bfc_enabled ≢ bfc
    → stamp bfc (while_inactive x c).1 ≡ stamp bfc c
unfolding while_inactive
other_mode true x c apart = ground (arith, apart)
other_mode false x c apart = ground (arith, apart)

-- Any other sample leaves the counter of the mode alone.
Counts-cases :
    (bfc : Bool) (x : Sample) (c : Controller)
    → Counts bfc x ⊎ ((Counts bfc x → ⊥) × (stamp bfc (while_inactive x c).1 ≡ stamp bfc c))
unfolding while_inactive
Counts-cases bfc x c = elim (Bool-cases x.ac_plugged) [
  | inr p ↦ inr (λ k. absurd (cc (p, k.plugged)), rw (p) refl)
  | inl p ↦ elim (Bool-cases x.charger_ntc_allowed) [
    | inr a ↦ inr (λ k. absurd (cc (a, k.allowed)), rw (p, a) refl)
    | inl a ↦ elim (mode_cases x.bfc_enabled bfc) [
      | inl m ↦ inl record { plugged = p; allowed = a; mode = m }
      | inr m ↦ inr (λ k. m k.mode, other_mode bfc x c m)
    ]
  ]
]

-- What the counter does with a sample, if it has a time stamp behind it.
count_cases :
    (limit voltage tick : ℕ) (last : Option ℕ) (t : ℕ)
    → (count (ltb limit voltage) tick last).1 ≡ some t
    → (voltage ≤ limit) × ((tick ≡ t) ⊎ (last ≡ some t))
unfolding count
count_cases limit voltage tick none t e = ground (arith, e)
count_cases limit voltage tick (some u) t e = ground (arith, e)

none-some : {o : Option ℕ} {t : ℕ} → o ≡ none → o ≡ some t → ⊥
none-some e h = absurd (cc (e, h))

-- One more sample, by the status before it.
sample-LowSince :
    (bfc : Bool) (t : ℕ) (x : Sample) (past : List Sample) (st : ChargerStatus)
    → (after past).charger_status ≡ st
    → (next_status st x (after past)).0 ≡ inactive
    → stamp bfc (next_status st x (after past)).1 ≡ some t
    → (st ≡ inactive → stamp bfc (after past) ≡ some t → LowSince bfc t past)
    → LowSince bfc t (x ∷ past)
unfolding next_status
sample-LowSince bfc t x past fault k h e before = absurd (cc (h))
sample-LowSince bfc t x past active k h e before =
    absurd (none-some (ended_resets bfc x (after past) h) e)
sample-LowSince bfc t x past not_connected k h e before =
    absurd (none-some (connected_resets bfc x (after past) h) e)
sample-LowSince bfc t x past inactive k h e before = elim (Counts-cases bfc x (after past)) [
  | inr (other, same) ↦ lasted k (λ counts. absurd (other counts)) (before refl (sym same ∙ e))
  | inl counts ↦
      (let given =
          count_cases (threshold bfc) x.battery_voltage_mv x.tick (stamp bfc (after past)) t
            (sym (counted bfc x (after past) counts) ∙ e) in
        elim given.1 [
          | inl same ↦ begun k counts same given.0
          | inr there ↦ lasted k (λ _. given.0) (before refl there)
        ])
]

-- A time stamp, while the status is inactive.
stamp-LowSince :
    (bfc : Bool) (t : ℕ) (past : List Sample)
    → (after past).charger_status ≡ inactive
    → stamp bfc (after past) ≡ some t
    → LowSince bfc t past
unfolding after
stamp-LowSince bfc t [] h e = absurd (cc (h))
stamp-LowSince bfc t (x ∷ past) h e =
    let c = after past in
    sample-LowSince bfc t x past c.charger_status refl (sym (process_status x c) ∙ h)
      (sym (stamp-process bfc x c) ∙ e) (stamp-LowSince bfc t past)

-- The call that begins to charge.
begins_by_counter :
    (x : Sample) (c : Controller)
    → (while_inactive x c).0 ≡ active
    → Counts x.bfc_enabled x
      × ((count
            (ltb (threshold x.bfc_enabled) x.battery_voltage_mv)
            x.tick
            (stamp x.bfc_enabled c)).0
          ≡ true)
unfolding while_inactive
begins_by_counter x c h = (
  record { plugged = ground (arith, h); allowed = ground (arith, h); mode = refl },
  ground (arith, h),
)

count_waits :
    (limit voltage tick : ℕ) (last : Option ℕ)
    → (count (ltb limit voltage) tick last).0 ≡ true
    → (voltage ≤ limit) × ((t : ℕ) × (last ≡ some t) × (5000 < get_ms_since tick t))
unfolding count
count_waits limit voltage tick none e = absurd (ground (arith, e))
count_waits limit voltage tick (some t) e = (ground (arith, e), (t, refl, ground (arith, e)))

-- If, behind any samples from the constructor on, a call makes the status active where it was inactive: the sample
-- counts for its mode, with a voltage at most the threshold of the mode; and more than 5000 ms before, a sample
-- that counted for the mode had such a voltage while the status was inactive, and since then the status has been
-- inactive, and the voltage has been such at every sample that counted.
pub charging_waits :
    (past : List Sample) (x : Sample)
    → (after past).charger_status ≡ inactive
    → (after (x ∷ past)).charger_status ≡ active
    → Counts x.bfc_enabled x
      × (x.battery_voltage_mv ≤ threshold x.bfc_enabled)
      × ((t : ℕ) × LowSince x.bfc_enabled t past × (5000 < get_ms_since x.tick t))
unfolding after next_status
charging_waits past x e h =
    let c = after past in
    let next : (while_inactive x c).0 ≡ active =
      ap (λ st. (next_status st x c).0) (sym e) ∙ sym (process_status x c) ∙ h in
    let begins = begins_by_counter x c next in
    let waited =
      count_waits (threshold x.bfc_enabled) x.battery_voltage_mv x.tick (stamp x.bfc_enabled c)
        begins.1 in
    (
      begins.0,
      waited.0,
      (waited.1.0, stamp-LowSince x.bfc_enabled waited.1.0 past e waited.1.1, waited.1.2),
    )
