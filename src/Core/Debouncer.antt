-- ===== src/Core/Debouncer.antt =====
-- core_utils/debouncer.h: `Debouncer<bool, TIMEOUT_IN>`. A call reads the tick at most once.
use mynd_firmware.Prelude.{
  ℕ, ◌≡◌, ◌≢◌, ◌≤◌, refl, ap, ◌∙◌, List, [], ◌∷◌, Bool, true, false, not, All, leb, ◌==◌,
  if◌then◌else◌, bool_eq, arith,
}
use mynd_firmware.Prelude.Words.{get_ms_since}

-- Its members.
pub record Debouncer : Type 0 where
  pub value : Bool
  pub last_change_ts : ℕ

-- `Debouncer::operator()`: the result, and the members.
unfoldable pub debounce : ℕ → ℕ → Bool → Debouncer → Bool × Debouncer
debounce timeout_in tick value d =
    if not (bool_eq d.value value)
    then (if d.last_change_ts == 0
        then (d.value, record d { last_change_ts = tick })
        else if leb timeout_in (get_ms_since tick d.last_change_ts)
        then (value, record d { last_change_ts = 0 })
        else (d.value, d))
    else (d.value, d)

-- Calls with a tick and a value each, in order: the members behind them.
unfoldable pub debounce_all : ℕ → List (ℕ × Bool) → Debouncer → Debouncer
debounce_all timeout_in [] d = d
debounce_all timeout_in (x ∷ samples) d =
    debounce_all timeout_in samples (debounce timeout_in x.0 x.1 d).1

bool_eq_self : (a b : Bool) → a ≡ b → bool_eq b a ≡ true
bool_eq_self true b e = rw (← e) refl
bool_eq_self false b e = rw (← e) refl

bool_eq-not : (b : Bool) → bool_eq b (not b) ≡ false
bool_eq-not true = refl
bool_eq-not false = refl

steady_one :
    (timeout_in tick : ℕ) (value : Bool) (d : Debouncer)
    → value ≡ d.value
    → (debounce timeout_in tick value d).1 ≡ d
unfolding debounce
steady_one timeout_in tick value d same = rw (bool_eq_self value d.value same) refl

-- Samples of the value that the debouncer has leave it as it is.
steady :
    (timeout_in : ℕ) (samples : List (ℕ × Bool)) (d : Debouncer)
    → All (λ (x : ℕ × Bool). x.1 ≡ d.value) samples
    → debounce_all timeout_in samples d ≡ d
unfolding debounce_all
steady timeout_in [] d same = refl
steady timeout_in (x ∷ samples) d same =
    ap (debounce_all timeout_in samples) (steady_one timeout_in x.0 x.1 d same.0)
    ∙ steady timeout_in samples d same.1

first_change :
    (timeout_in tick : ℕ) (d : Debouncer)
    → d.last_change_ts ≡ 0
    → debounce timeout_in tick (not d.value) d ≡ (d.value, record d { last_change_ts = tick })
unfolding debounce
first_change timeout_in tick d h = rw (bool_eq-not d.value) (ground (arith, h))

late_change :
    (timeout_in tick now : ℕ) (d : Debouncer)
    → tick ≢ 0
    → d.last_change_ts ≡ tick
    → timeout_in ≤ get_ms_since now tick
    → debounce timeout_in now (not d.value) d ≡ (not d.value, record d { last_change_ts = 0 })
unfolding debounce
late_change timeout_in tick now d nonzero h late = rw (bool_eq-not d.value) (ground (arith, h))

-- From a debouncer with no time stamp: one sample of the other value at a tick that is not 0, then any samples of
-- its own value, at whatever ticks, and then one sample of the other value, at which the timeout since the first
-- one is over, give the other value at once, although it had not lasted; and one more sample of the other value
-- gives the first value again.
stale_glitch_passes :
    (timeout_in tick now later : ℕ) (samples : List (ℕ × Bool)) (d : Debouncer)
    → d.last_change_ts ≡ 0
    → tick ≢ 0
    → All (λ (x : ℕ × Bool). x.1 ≡ d.value) samples
    → timeout_in ≤ get_ms_since now tick
    → let behind = debounce_all timeout_in samples (debounce timeout_in tick (not d.value) d).1 in
      let passed = debounce timeout_in now (not d.value) behind in
      (passed.0 ≡ not d.value) × ((debounce timeout_in later (not d.value) passed.1).0 ≡ d.value)
stale_glitch_passes timeout_in tick now later samples d none nonzero same late =
    let waiting = record d { last_change_ts = tick } in
    let behind : debounce_all timeout_in samples (debounce timeout_in tick (not d.value) d).1
        ≡ waiting =
      ap (λ x. debounce_all timeout_in samples x.1) (first_change timeout_in tick d none)
      ∙ steady timeout_in samples waiting same in
    let passed = late_change timeout_in tick now waiting nonzero refl late in
    rw (behind) (
      rw (passed) (
        refl,
        ap (λ x. x.0) (first_change timeout_in later (record d { last_change_ts = 0 }) refl),
      ))
