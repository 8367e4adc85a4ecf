-- ===== src/Battery/Temperature.antt =====
-- battery/temperature/temperature.cpp: the four protections of the battery by its temperature.
-- ntc_voltage_to_temperature computes with floating-point numbers and is not modelled.
use mynd_firmware.Prelude.{
  ◌≡◌, ◌≢◌, refl, Bool, true, false, ◌||◌, if◌then◌else◌, ◌⊎◌, inl, inr, arith,
}
use mynd_firmware.Prelude.Int.{ℤ, pos, negsuc, neg}
use mynd_firmware.Core.Hysteresis.{hysteresis, hysteresis_decided, leb_ℤ}

-- The flags of the four functions that hysteresis.h makes.
pub record Protectors : Type 0 where
  pub charging_over : Bool
  pub discharge_over : Bool
  pub charging_under : Bool
  pub discharge_under : Bool

abbrev pub initial_protectors : Protectors
initial_protectors = record {
  charging_over = false;
  discharge_over = false;
  charging_under = false;
  discharge_under = false;
}

-- The four functions, with the degrees of config.h.
abbrev pub charging_over_temp_in_critical : Bool → ℤ → Bool
charging_over_temp_in_critical = hysteresis (pos 45) (pos 40)

abbrev pub discharge_over_temp_in_critical : Bool → ℤ → Bool
discharge_over_temp_in_critical = hysteresis (pos 60) (pos 50)

abbrev pub charging_under_temp_in_critical : Bool → ℤ → Bool
charging_under_temp_in_critical = hysteresis (pos 0) (pos 5)

abbrev pub discharge_under_temp_in_critical : Bool → ℤ → Bool
discharge_under_temp_in_critical = hysteresis (neg 20) (neg 10)

-- is_battery_temperature_in_critical_for_charge: the result, and the flags.
unfoldable pub is_battery_temperature_in_critical_for_charge : ℤ → Protectors → Bool × Protectors
is_battery_temperature_in_critical_for_charge temperature p =
    let over = charging_over_temp_in_critical p.charging_over temperature in
    let under = charging_under_temp_in_critical p.charging_under temperature in
    (over || under, record p { charging_over = over; charging_under = under })

-- is_battery_temperature_in_critical_for_discharge
unfoldable pub is_battery_temperature_in_critical_for_discharge : ℤ → Protectors → Bool × Protectors
is_battery_temperature_in_critical_for_discharge temperature p =
    let over = discharge_over_temp_in_critical p.discharge_over temperature in
    let under = discharge_under_temp_in_critical p.discharge_under temperature in
    (over || under, record p { discharge_over = over; discharge_under = under })

-- `Teufel::Ux::System::BatteryCriticalTemperature`
pub data BatteryCriticalTemperature : Type 0 where
  charge_under_temp charge_over_temp discharge_under_temp discharge_over_temp temp_ok ntc_lost :
      BatteryCriticalTemperature

-- battery_temperature_state
unfoldable pub battery_temperature_state : ℤ → Protectors → BatteryCriticalTemperature × Protectors
battery_temperature_state temperature p =
    let charging_over = charging_over_temp_in_critical p.charging_over temperature in
    let charging_under = charging_under_temp_in_critical p.charging_under temperature in
    let discharge_over = discharge_over_temp_in_critical p.discharge_over temperature in
    let discharge_under = discharge_under_temp_in_critical p.discharge_under temperature in
    let flags : Protectors = record {
      charging_over = charging_over;
      discharge_over = discharge_over;
      charging_under = charging_under;
      discharge_under = discharge_under;
    } in
    (
      if charging_under
          then charge_under_temp
          else if charging_over
          then charge_over_temp
          else if discharge_under
          then discharge_under_temp
          else if discharge_over
          then discharge_over_temp
          else temp_ok,
      flags,
    )

-- The charging protections are on whenever the discharging ones are.
pub record IsNested (p : Protectors) : Type 0 where
  pub over : p.discharge_over ≡ true → p.charging_over ≡ true
  pub under : p.discharge_under ≡ true → p.charging_under ≡ true

over_nested :
    (discharge charging : Bool) (t : ℤ)
    → (discharge ≡ true → charging ≡ true)
    → discharge_over_temp_in_critical discharge t ≡ true
    → charging_over_temp_in_critical charging t ≡ true
unfolding hysteresis
over_nested true true (pos t) h k = ground arith
over_nested true true (negsuc t) h k = absurd (cc)
over_nested true false t h k = absurd (cc (h refl))
over_nested false true (pos t) h k = ground arith
over_nested false true (negsuc t) h k = absurd (cc)
over_nested false false (pos t) h k = ground arith
over_nested false false (negsuc t) h k = absurd (cc)

under_nested :
    (discharge charging : Bool) (t : ℤ)
    → (discharge ≡ true → charging ≡ true)
    → discharge_under_temp_in_critical discharge t ≡ true
    → charging_under_temp_in_critical charging t ≡ true
unfolding hysteresis
under_nested true true (pos t) h k = absurd (cc)
under_nested true true (negsuc t) h k = refl
under_nested true false t h k = absurd (cc (h refl))
under_nested false true (pos t) h k = absurd (cc)
under_nested false true (negsuc t) h k = refl
under_nested false false (pos t) h k = absurd (cc)
under_nested false false (negsuc t) h k = refl

state_of_nested :
    (charging_under charging_over discharge_under discharge_over : Bool)
    → (discharge_over ≡ true → charging_over ≡ true)
    → (discharge_under ≡ true → charging_under ≡ true)
    → let state =
        if charging_under
        then charge_under_temp
        else if charging_over
        then charge_over_temp
        else if discharge_under
        then discharge_under_temp
        else if discharge_over
        then discharge_over_temp
        else temp_ok in
      (state ≢ discharge_under_temp) × (state ≢ discharge_over_temp)
state_of_nested true co du d h k = (λ e. cc, λ e. cc)
state_of_nested false true du d h k = (λ e. cc, λ e. cc)
state_of_nested false false true d h k = absurd (cc (k refl))
state_of_nested false false false true h k = absurd (cc (h refl))
state_of_nested false false false false h k = (λ e. cc, λ e. cc)

-- Where the charging protections are on whenever the discharging ones are, as at the beginning: whatever the
-- temperature, battery_temperature_state reports neither that it is too low nor that it is too high for
-- discharging, and the protections are nested so again.
discharge_states_unreachable :
    (t : ℤ) (p : Protectors)
    → IsNested p
    → ((battery_temperature_state t p).0 ≢ discharge_under_temp)
      × ((battery_temperature_state t p).0 ≢ discharge_over_temp)
      × IsNested (battery_temperature_state t p).1
unfolding battery_temperature_state
discharge_states_unreachable t p nested =
    let over = over_nested p.discharge_over p.charging_over t nested.over in
    let under = under_nested p.discharge_under p.charging_under t nested.under in
    let states =
      state_of_nested (charging_under_temp_in_critical p.charging_under t)
        (charging_over_temp_in_critical p.charging_over t)
        (discharge_under_temp_in_critical p.discharge_under t)
        (discharge_over_temp_in_critical p.discharge_over t) over under in
    (states.0, states.1, record { over = over; under = under })

either_true : (a b : Bool) → (a ≡ true) ⊎ (b ≡ true) → (a || b) ≡ true
either_true true b h = refl
either_true false true h = refl
either_true false false (inl h) = h
either_true false false (inr h) = h

both_false : (a b : Bool) → a ≡ false → b ≡ false → (a || b) ≡ false
both_false a b h k = rw (h) k

-- A protection on each side.
either_beyond :
    (A B : Type 0) (a b : Bool) → (A → a ≡ true) → (B → b ≡ true) → A ⊎ B → (a || b) ≡ true
either_beyond A B a b f g (inl h) = either_true a b (inl (f h))
either_beyond A B a b f g (inr h) = either_true a b (inr (g h))

-- Whatever the temperatures before were: the battery is reported as critical for charging from 45 degrees on
-- and down from 0, and is not from 5 to 40 degrees; as critical for discharging from 60 degrees on and down from
-- -20, and is not from -10 to 50 degrees.
pub protection_bands :
    (t : ℤ) (p : Protectors)
    → ((leb_ℤ (pos 45) t ≡ true) ⊎ (leb_ℤ t (pos 0) ≡ true)
        → (is_battery_temperature_in_critical_for_charge t p).0 ≡ true)
      × (leb_ℤ (pos 5) t ≡ true
          → leb_ℤ t (pos 40) ≡ true
          → (is_battery_temperature_in_critical_for_charge t p).0 ≡ false)
      × ((leb_ℤ (pos 60) t ≡ true) ⊎ (leb_ℤ t (neg 20) ≡ true)
          → (is_battery_temperature_in_critical_for_discharge t p).0 ≡ true)
      × (leb_ℤ (neg 10) t ≡ true
          → leb_ℤ t (pos 50) ≡ true
          → (is_battery_temperature_in_critical_for_discharge t p).0 ≡ false)
unfolding is_battery_temperature_in_critical_for_charge
    is_battery_temperature_in_critical_for_discharge
protection_bands t p =
    let co = hysteresis_decided (pos 45) (pos 40) t p.charging_over (inl refl) in
    let cu = hysteresis_decided (pos 0) (pos 5) t p.charging_under (inr refl) in
    let d = hysteresis_decided (pos 60) (pos 50) t p.discharge_over (inl refl) in
    let du = hysteresis_decided (neg 20) (neg 10) t p.discharge_under (inr refl) in
    (
      either_beyond _ _ _ _ co.0 cu.0,
      λ low high. both_false _ _ (co.1 high) (cu.1 low),
      either_beyond _ _ _ _ d.0 du.0,
      λ low high. both_false _ _ (d.1 high) (du.1 low),
    )
