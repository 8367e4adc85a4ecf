-- ===== src/Battery/Indicator.antt =====
-- battery/battery_indicator: when a low level of the battery is indicated.
use mynd_firmware.Prelude.{
  ℕ, ◌-◌, ◌≡◌, ◌⊎◌, refl, ap, ◌∙◌, List, [], ◌∷◌, Bool, true, false, not, ◌&&◌, ltb, ◌==◌,
  if◌then◌else◌, inl, inr, arith,
}
use mynd_firmware.Prelude.Words.{u32_mod, sub32}
use mynd_firmware.Charge.Controller.{ChargerStatus, not_connected}
use mynd_firmware.Charge.Safety.{is_active}

-- The two actions that the constructor is given.
pub data LowAction : Type 0 where
  low5 low10 : LowAction

-- The members of BatteryIndicator, and the actions that were called, newest first.
pub record Indicator : Type 0 where
  pub is_low5_indicated : Bool
  pub is_low10_indicated : Bool
  pub charger_status : ChargerStatus
  pub power_on_ts : ℕ
  pub power_is_on : Bool
  pub actions : List LowAction

abbrev pub initial_indicator : Indicator
initial_indicator = record {
  is_low5_indicated = false;
  is_low10_indicated = false;
  charger_status = not_connected;
  power_on_ts = u32_mod - 1;
  power_is_on = false;
  actions = [];
}

-- BatteryIndicator::update_charger_status
unfoldable pub update_charger_status : ChargerStatus → Indicator → Indicator
update_charger_status status i =
    if is_active status
    then record i { is_low10_indicated = false; is_low5_indicated = false; charger_status = status }
    else record i { charger_status = status }

-- BatteryIndicator::update_power_state: is the new state On, and the tick
unfoldable pub update_power_state : Bool → ℕ → Indicator → Indicator
update_power_state true ts i = record i {
  is_low10_indicated = false;
  is_low5_indicated = false;
  power_on_ts = ts;
  power_is_on = true;
}
update_power_state false ts i = record i { power_is_on = false }

-- The end of BatteryIndicator::m_check_battery_level: the two levels.
unfoldable pub indicate : ℕ → Indicator → Indicator
indicate level i =
    if ltb level 5 && not i.is_low5_indicated
    then record i {
      is_low5_indicated = true;
      is_low10_indicated = true;
      actions = low5 ∷ i.actions;
    }
    else if ltb level 10 && not i.is_low10_indicated
    then record i { is_low10_indicated = true; actions = low10 ∷ i.actions }
    else i

-- BatteryIndicator::m_check_battery_level, which update_battery_level calls.
unfoldable pub check_battery_level : ℕ → ℕ → Indicator → Indicator
unfolding indicate
check_battery_level level ts i =
    if level == 0 && ltb ts 10000
    then record i { is_low5_indicated = true; is_low10_indicated = true; power_on_ts = u32_mod - 1 }
    else if not i.power_is_on
    then i
    else if ltb (sub32 ts i.power_on_ts) 5000
    then i
    else if is_active i.charger_status
    then i
    else indicate level i

-- Levels with the ticks at which they are reported, in order.
unfoldable pub check_all : List (ℕ × ℕ) → Indicator → Indicator
check_all [] i = i
check_all (x ∷ levels) i = check_all levels (check_battery_level x.0 x.1 i)

-- What a report of a level does.
pub data Reported (i : Indicator) : Indicator → Type 0 where
  same : Reported i i
  silenced :
      {i' : Indicator}
      → i'.is_low5_indicated ≡ true
      → i'.is_low10_indicated ≡ true
      → i'.actions ≡ i.actions
      → Reported i i'
  indicated5 :
      {i' : Indicator}
      → i.is_low5_indicated ≡ false
      → i'.is_low5_indicated ≡ true
      → i'.is_low10_indicated ≡ true
      → i'.actions ≡ low5 ∷ i.actions
      → Reported i i'
  indicated10 :
      {i' : Indicator}
      → i.is_low10_indicated ≡ false
      → i'.is_low5_indicated ≡ i.is_low5_indicated
      → i'.is_low10_indicated ≡ true
      → i'.actions ≡ low10 ∷ i.actions
      → Reported i i'

either :
    (i x y : Indicator) (b : Bool)
    → (b ≡ true → Reported i x)
    → (b ≡ false → Reported i y)
    → Reported i (if b then x else y)
either i x y true f g = f refl
either i x y false f g = g refl

indicate-Reported : (level : ℕ) (i : Indicator) → Reported i (indicate level i)
unfolding indicate
indicate-Reported level i =
    either i _ _ (ltb level 5 && not i.is_low5_indicated)
      (λ low. indicated5 (ground (arith, low)) refl refl refl)
      (λ high.
        either i _ _ (ltb level 10 && not i.is_low10_indicated)
          (λ low. indicated10 (ground (arith, low)) refl refl refl) (λ full. same))

report : (level ts : ℕ) (i : Indicator) → Reported i (check_battery_level level ts i)
unfolding check_battery_level
report level ts i =
    either i _ _ (level == 0 && ltb ts 10000) (λ e. silenced refl refl refl)
      (λ e.
        either i _ _ (not i.power_is_on) (λ off. same)
          (λ on.
            either i _ _ (ltb (sub32 ts i.power_on_ts) 5000) (λ early. same)
              (λ late.
                either i _ _ (is_active i.charger_status) (λ charging. same)
                  (λ idle. indicate-Reported level i))))

-- With both levels indicated nothing more is.
both_step :
    {i i' : Indicator}
    → Reported i i'
    → i.is_low5_indicated ≡ true
    → i.is_low10_indicated ≡ true
    → (i'.is_low5_indicated ≡ true) × (i'.is_low10_indicated ≡ true) × (i'.actions ≡ i.actions)
both_step same h k = (h, k, refl)
both_step (silenced a b c) h k = (a, b, c)
both_step (indicated5 a b c d) h k = absurd (cc)
both_step (indicated10 a b c d) h k = absurd (cc)

both_indicated :
    (levels : List (ℕ × ℕ)) (i : Indicator)
    → i.is_low5_indicated ≡ true
    → i.is_low10_indicated ≡ true
    → (check_all levels i).actions ≡ i.actions
unfolding check_all
both_indicated [] i h k = refl
both_indicated (x ∷ levels) i h k =
    let s = both_step (report x.0 x.1 i) h k in
    both_indicated levels (check_battery_level x.0 x.1 i) s.0 s.1 ∙ s.2

-- With 10 % indicated, 5 % may be, once.
ten_indicated :
    (levels : List (ℕ × ℕ)) (i : Indicator)
    → i.is_low5_indicated ≡ false
    → i.is_low10_indicated ≡ true
    → ((check_all levels i).actions ≡ i.actions) ⊎ ((check_all levels i).actions ≡ low5 ∷ i.actions)
unfolding check_all
ten_indicated [] i h k = inl refl
ten_indicated (x ∷ levels) i h k =
    ten_from levels i (check_battery_level x.0 x.1 i) (report x.0 x.1 i) h k
      (ten_indicated levels (check_battery_level x.0 x.1 i))
  where
    ten_from :
        (levels : List (ℕ × ℕ)) (i i' : Indicator)
        → Reported i i'
        → i.is_low5_indicated ≡ false
        → i.is_low10_indicated ≡ true
        → (i'.is_low5_indicated ≡ false
            → i'.is_low10_indicated ≡ true
            → ((check_all levels i').actions ≡ i'.actions)
              ⊎ ((check_all levels i').actions ≡ low5 ∷ i'.actions))
        → ((check_all levels i').actions ≡ i.actions)
          ⊎ ((check_all levels i').actions ≡ low5 ∷ i.actions)
    ten_from levels i i' same h k rest = rest h k
    ten_from levels i i' (silenced a b c) h k rest = inl (both_indicated levels i' a b ∙ c)
    ten_from levels i i' (indicated5 a b c d) h k rest = inr (both_indicated levels i' b c ∙ d)
    ten_from levels i i' (indicated10 a b c d) h k rest = absurd (cc)

-- Whatever levels are reported and at whatever ticks, from an indicator that has indicated nothing since it
-- was switched on or charged: nothing is indicated, or 5 %, or 10 %, or first 10 % and then 5 %, each once.
pub levels_indicated_once :
    (levels : List (ℕ × ℕ)) (i : Indicator)
    → i.is_low5_indicated ≡ false
    → i.is_low10_indicated ≡ false
    → ((check_all levels i).actions ≡ i.actions)
      ⊎ (((check_all levels i).actions ≡ low5 ∷ i.actions)
          ⊎ (((check_all levels i).actions ≡ low10 ∷ i.actions)
              ⊎ ((check_all levels i).actions ≡ low5 ∷ low10 ∷ i.actions)))
unfolding check_all
levels_indicated_once [] i h k = inl refl
levels_indicated_once (x ∷ levels) i h k =
    once_from levels i (check_battery_level x.0 x.1 i) (report x.0 x.1 i) h k
      (levels_indicated_once levels (check_battery_level x.0 x.1 i))
  where
    once_from :
        (levels : List (ℕ × ℕ)) (i i' : Indicator)
        → Reported i i'
        → i.is_low5_indicated ≡ false
        → i.is_low10_indicated ≡ false
        → (i'.is_low5_indicated ≡ false
            → i'.is_low10_indicated ≡ false
            → ((check_all levels i').actions ≡ i'.actions)
              ⊎ (((check_all levels i').actions ≡ low5 ∷ i'.actions)
                  ⊎ (((check_all levels i').actions ≡ low10 ∷ i'.actions)
                      ⊎ ((check_all levels i').actions ≡ low5 ∷ low10 ∷ i'.actions))))
        → ((check_all levels i').actions ≡ i.actions)
          ⊎ (((check_all levels i').actions ≡ low5 ∷ i.actions)
              ⊎ (((check_all levels i').actions ≡ low10 ∷ i.actions)
                  ⊎ ((check_all levels i').actions ≡ low5 ∷ low10 ∷ i.actions)))
    once_from levels i i' same h k rest = rest h k
    once_from levels i i' (silenced a b c) h k rest = inl (both_indicated levels i' a b ∙ c)
    once_from levels i i' (indicated5 a b c d) h k rest =
        inr (inl (both_indicated levels i' b c ∙ d))
    once_from levels i i' (indicated10 a b c d) h k rest =
        elim (ten_indicated levels i' (b ∙ h) c) [
          | inl e ↦ inr (inr (inl (e ∙ d)))
          | inr e ↦ inr (inr (inr (e ∙ ap (λ l. low5 ∷ l) d)))
        ]
