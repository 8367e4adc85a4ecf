-- ===== src/Core/Hysteresis.antt =====
-- core_utils/hysteresis.h: a value that is critical beyond a threshold, until it is back at a recovery value.
use mynd_firmware.Prelude.{
  ◌⊎◌, ◌≡◌, refl, sym, ap, ◌∙◌, List, [], ◌∷◌, ◌++◌, Bool, true, false, not, All, leb,
  if◌then◌else◌, Bool-cases, inl, inr, arith,
}
use mynd_firmware.Prelude.Int.{ℤ, pos, negsuc}

-- `a <= b` and `a < b` of signed integers
abbrev pub leb_ℤ : ℤ → ℤ → Bool
leb_ℤ (pos a) (pos b) = leb a b
leb_ℤ (pos a) (negsuc b) = false
leb_ℤ (negsuc a) (pos b) = true
leb_ℤ (negsuc a) (negsuc b) = leb b a

abbrev pub ltb_ℤ : ℤ → ℤ → Bool
ltb_ℤ a b = not (leb_ℤ b a)

-- A call of the function that `hysteresis<threshold, recovery>` returns: the flag before, and the new flag,
-- which is also the result.
unfoldable pub hysteresis : ℤ → ℤ → Bool → ℤ → Bool
hysteresis threshold recovery in_critical value =
    if ltb_ℤ recovery threshold
    then (if in_critical then ltb_ℤ recovery value else leb_ℤ threshold value)
    else if ltb_ℤ threshold recovery
    then (if in_critical then ltb_ℤ value recovery else leb_ℤ value threshold)
    else in_critical

-- The flag behind some values, newest first.
unfoldable pub critical_after : ℤ → ℤ → List ℤ → Bool
critical_after threshold recovery [] = false
critical_after threshold recovery (value ∷ values) =
    hysteresis threshold recovery (critical_after threshold recovery values) value

-- Is a value at the threshold or beyond, and is it at the recovery value or on its safe side?
abbrev pub is_beyond : ℤ → ℤ → ℤ → Bool
is_beyond threshold recovery value =
    if ltb_ℤ recovery threshold then leb_ℤ threshold value else leb_ℤ value threshold

abbrev pub is_recovered : ℤ → ℤ → ℤ → Bool
is_recovered threshold recovery value =
    if ltb_ℤ recovery threshold then leb_ℤ value recovery else leb_ℤ recovery value

-- Some value was at the threshold or beyond, and none since then has recovered.
pub record IsCritical (threshold recovery : ℤ) (values : List ℤ) : Type 0 where
  pub newer : List ℤ
  pub worst : ℤ
  pub older : List ℤ
  pub is_split : values ≡ newer ++ (worst ∷ older)
  pub beyond : is_beyond threshold recovery worst ≡ true
  pub unrecovered : All (λ (v : ℤ). is_recovered threshold recovery v ≡ false) newer

ltb_asym : (a b : ℤ) → ltb_ℤ a b ≡ true → ltb_ℤ b a ≡ false
ltb_asym (pos a) (pos b) h = ground arith
ltb_asym (pos a) (negsuc b) h = absurd (cc)
ltb_asym (negsuc a) (pos b) h = refl
ltb_asym (negsuc a) (negsuc b) h = ground arith

-- leb_ℤ is transitive, in the form that excludes a value on both sides.
between : (a b v : ℤ) → ltb_ℤ a b ≡ true → leb_ℤ b v ≡ true → leb_ℤ v a ≡ false
between (pos a) (pos b) (pos v) h k = ground arith
between (negsuc a) (pos b) (pos v) h k = refl
between (negsuc a) (negsuc b) (pos v) h k = refl
between (negsuc a) (negsuc b) (negsuc v) h k = ground arith
between (pos a) (negsuc b) v h k = absurd (cc)
between (pos a) (pos b) (negsuc v) h k = absurd (cc)
between (negsuc a) (pos b) (negsuc v) h k = absurd (cc)

between_down : (a b v : ℤ) → ltb_ℤ a b ≡ true → leb_ℤ v a ≡ true → leb_ℤ b v ≡ false
between_down (pos a) (pos b) (pos v) h k = ground arith
between_down (pos a) (pos b) (negsuc v) h k = refl
between_down (negsuc a) (pos b) (negsuc v) h k = refl
between_down (negsuc a) (negsuc b) (negsuc v) h k = ground arith
between_down (pos a) (negsuc b) v h k = absurd (cc)
between_down (negsuc a) (pos b) (pos v) h k = absurd (cc)
between_down (negsuc a) (negsuc b) (pos v) h k = absurd (cc)

-- `static_assert(ThresholdValue != RecoveryValue)`
abbrev pub Differ : ℤ → ℤ → Type 0
Differ threshold recovery = (ltb_ℤ recovery threshold ≡ true) ⊎ (ltb_ℤ threshold recovery ≡ true)

-- One more value while critical and while not.
hysteresis_critical :
    (threshold recovery value : ℤ)
    → Differ threshold recovery
    → hysteresis threshold recovery true value ≡ not (is_recovered threshold recovery value)
unfolding hysteresis
hysteresis_critical threshold recovery value (inl h) = rw (h) refl
hysteresis_critical threshold recovery value (inr h) =
    rw (ltb_asym threshold recovery h) (rw (h) refl)

hysteresis_normal :
    (threshold recovery value : ℤ)
    → Differ threshold recovery
    → hysteresis threshold recovery false value ≡ is_beyond threshold recovery value
unfolding hysteresis
hysteresis_normal threshold recovery value (inl h) = rw (h) refl
hysteresis_normal threshold recovery value (inr h) =
    rw (ltb_asym threshold recovery h) (rw (h) refl)

beyond_unrecovered :
    (threshold recovery value : ℤ)
    → Differ threshold recovery
    → is_beyond threshold recovery value ≡ true
    → is_recovered threshold recovery value ≡ false
beyond_unrecovered threshold recovery value (inl h) k =
    rw (h) (between recovery threshold value h (rw h at k))
beyond_unrecovered threshold recovery value (inr h) k =
    let up = ltb_asym threshold recovery h in
    rw (up) (between_down threshold recovery value h (rw up at k))

critical_after-IsCritical :
    (threshold recovery : ℤ) (values : List ℤ)
    → Differ threshold recovery
    → critical_after threshold recovery values ≡ true
    → IsCritical threshold recovery values
unfolding critical_after
critical_after-IsCritical threshold recovery [] differ h = absurd (cc)
critical_after-IsCritical threshold recovery (v ∷ values) differ h =
    elim (Bool-cases (critical_after threshold recovery values)) [
      | inl k ↦
          (let before = critical_after-IsCritical threshold recovery values differ k in
            let e : not (is_recovered threshold recovery v) ≡ true =
              sym (hysteresis_critical threshold recovery v differ)
              ∙ sym (ap (λ c. hysteresis threshold recovery c v) k)
              ∙ h in
            record {
              newer = v ∷ before.newer;
              worst = before.worst;
              older = before.older;
              is_split = ap (λ l. v ∷ l) before.is_split;
              beyond = before.beyond;
              unrecovered = (ground (arith, e), before.unrecovered);
            })
      | inr k ↦ record {
        newer = [];
        worst = v;
        older = values;
        is_split = refl;
        beyond =
            sym (hysteresis_normal threshold recovery v differ)
            ∙ sym (ap (λ c. hysteresis threshold recovery c v) k)
            ∙ h;
        unrecovered = tt;
      }
    ]

stays_critical :
    (threshold recovery worst : ℤ) (newer older : List ℤ)
    → Differ threshold recovery
    → is_beyond threshold recovery worst ≡ true
    → All (λ (v : ℤ). is_recovered threshold recovery v ≡ false) newer
    → critical_after threshold recovery (newer ++ (worst ∷ older)) ≡ true
unfolding critical_after
stays_critical threshold recovery worst [] older differ beyond low =
    elim (Bool-cases (critical_after threshold recovery older)) [
      | inl k ↦
          ap (λ c. hysteresis threshold recovery c worst) k
          ∙ hysteresis_critical threshold recovery worst differ
          ∙ ap not (beyond_unrecovered threshold recovery worst differ beyond)
      | inr k ↦
          ap (λ c. hysteresis threshold recovery c worst) k
          ∙ hysteresis_normal threshold recovery worst differ
          ∙ beyond
    ]
stays_critical threshold recovery worst (v ∷ newer) older differ beyond low =
    ap (λ c. hysteresis threshold recovery c v)
      (stays_critical threshold recovery worst newer older differ beyond low.1)
    ∙ hysteresis_critical threshold recovery v differ
    ∙ ap not low.0

-- For a threshold and a recovery value that differ: the function is true behind some values, newest first,
-- exactly when one of them was at the threshold or beyond and none since then was at the recovery value or on
-- its safe side.
pub hysteresis-IsCritical :
    (threshold recovery : ℤ) (values : List ℤ)
    → Differ threshold recovery
    → (critical_after threshold recovery values ≡ true → IsCritical threshold recovery values)
      × (IsCritical threshold recovery values → critical_after threshold recovery values ≡ true)
hysteresis-IsCritical threshold recovery values differ = (
  critical_after-IsCritical threshold recovery values differ,
  λ c.
      ap (critical_after threshold recovery) c.is_split
      ∙ stays_critical threshold recovery c.worst c.newer c.older differ c.beyond c.unrecovered,
)

recovered_inside :
    (threshold recovery value : ℤ)
    → Differ threshold recovery
    → is_recovered threshold recovery value ≡ true
    → is_beyond threshold recovery value ≡ false
recovered_inside threshold recovery value differ r =
    elim (Bool-cases (is_beyond threshold recovery value)) [
      | inl b ↦ absurd (cc (beyond_unrecovered threshold recovery value differ b))
      | inr b ↦ b
    ]

-- Whatever the flag was, a value at the threshold or beyond sets it, and one that has recovered clears it.
pub hysteresis_decided :
    (threshold recovery value : ℤ) (in_critical : Bool)
    → Differ threshold recovery
    → (is_beyond threshold recovery value ≡ true
        → hysteresis threshold recovery in_critical value ≡ true)
      × (is_recovered threshold recovery value ≡ true
          → hysteresis threshold recovery in_critical value ≡ false)
hysteresis_decided threshold recovery value true differ = (
  λ b.
      hysteresis_critical threshold recovery value differ
      ∙ ap not (beyond_unrecovered threshold recovery value differ b),
  λ r. hysteresis_critical threshold recovery value differ ∙ ap not r,
)
hysteresis_decided threshold recovery value false differ = (
  λ b. hysteresis_normal threshold recovery value differ ∙ b,
  λ r.
      hysteresis_normal threshold recovery value differ
      ∙ recovered_inside threshold recovery value differ r,
)
