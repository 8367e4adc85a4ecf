-- ===== src/Battery/Charging.antt =====
-- At what temperatures `poll` of battery.cpp lets the charge controller charge.
use mynd_firmware.Prelude.{
  ◌+◌, ◌%◌, ◌≡◌, ◌⊎◌, refl, sym, ap, ◌∙◌, Bool, true, false, not, ◌&&◌, Option, none, some, ltb,
  ◌==◌, if◌then◌else◌, inl, inr, arith,
}
use mathlib.Core.Path.{subst}
use mynd_firmware.Prelude.Int.{pos, is_zero}
use mynd_firmware.Charge.Controller.{active, process, is_same}
use mynd_firmware.Charge.Safety.{active_allowed, is_active}
use mynd_firmware.Core.Hysteresis.{leb_ℤ}
use mynd_firmware.Battery.Temperature.{
  is_battery_temperature_in_critical_for_charge, is_battery_temperature_in_critical_for_discharge,
  protection_bands,
}
use mynd_firmware.Prelude.Words.{get_ms_since}
use mynd_firmware.Battery.Voltage.{add_sample, battery_voltage_mv}
use mynd_firmware.Battery.PollState.{Battery, Reading}
use mynd_firmware.Battery.Poll.{
  poll, poll_setup, poll_charger, report_temperature, update_battery_temperature,
  monitor_charger_status, monitor_battery_level, monitor_power_bank_mode, start_soc,
  check_charger_status_to_play_sound_icon, sample_of, set_charge_type, check_voltage, save_soc,
  report_level,
}

-- What a part of `poll` leaves alone.
record KeepsControl (b b' : Battery) : Type 0 where
  same_controller : b'.controller ≡ b.controller
  same_temperature : b'.last_battery_temperature ≡ b.last_battery_temperature

KeepsControl-trans : {a b c : Battery} → KeepsControl a b → KeepsControl b c → KeepsControl a c
KeepsControl-trans h k = record {
  same_controller = k.same_controller ∙ h.same_controller;
  same_temperature = k.same_temperature ∙ h.same_temperature;
}

choose_control :
    (b x y : Battery) (c : Bool)
    → KeepsControl b x
    → KeepsControl b y
    → KeepsControl b (if c then x else y)
choose_control b x y true h k = h
choose_control b x y false h k = k

keeps :
    {b b' : Battery}
    → b'.controller ≡ b.controller
    → b'.last_battery_temperature ≡ b.last_battery_temperature
    → KeepsControl b b'
keeps p q = record { same_controller = p; same_temperature = q }

sound_keeps :
    (x : Reading) (b : Battery) → KeepsControl b (check_charger_status_to_play_sound_icon x b)
unfolding check_charger_status_to_play_sound_icon
sound_keeps x b = ground arith

soc_keeps : (b : Battery) → KeepsControl b (start_soc b)
unfolding start_soc
soc_keeps b = ground arith

level_keeps : (x : Reading) (b : Battery) → KeepsControl b (report_level x b)
unfolding report_level
level_keeps x b = ground arith

save_keeps : (x : Reading) (b : Battery) → KeepsControl b (save_soc x b)
unfolding save_soc
save_keeps x b = ground arith

voltage_keeps : (x : Reading) (b : Battery) → KeepsControl b (check_voltage x b)
unfolding check_voltage
voltage_keeps x b = ground arith

type_keeps : (friendly : Bool) (b : Battery) → KeepsControl b (set_charge_type friendly b)
unfolding set_charge_type
type_keeps friendly b = ground arith

bank_keeps : (x : Reading) (b : Battery) → KeepsControl b (monitor_power_bank_mode x b)
unfolding monitor_power_bank_mode
bank_keeps x b = ground arith

monitor_keeps : (x : Reading) (b : Battery) → KeepsControl b (monitor_battery_level x b)
unfolding monitor_battery_level
monitor_keeps x b =
    let voltage = add_sample (battery_voltage_mv x.bat_voltage x.vdda) b.voltage in
    choose_control b _ _ (ltb (get_ms_since x.tick b.last_poll_timestamp_ms) 200) (keeps refl refl)
      (choose_control b _ _ (not voltage.is_battery_voltage_stable) (keeps refl refl) (
        choose_control b _ _ b.is_ntc_lost (keeps refl refl) (
          KeepsControl-trans
            (KeepsControl-trans (KeepsControl-trans (keeps refl refl) (level_keeps x _))
              (save_keeps x _))
            (voltage_keeps x _))))

report_keeps : (b : Battery) → KeepsControl b (report_temperature b)
unfolding report_temperature
report_keeps b = ground arith

-- The controller is as before, or is charging at a temperature strictly between 0 and 45 degrees only.
abbrev IsDecided : Battery → Battery → Type 0
IsDecided b b' =
    (b'.controller ≡ b.controller)
    ⊎ (b'.controller.charger_status ≡ active
        → (leb_ℤ (pos 45) b'.last_battery_temperature ≡ false)
          × (leb_ℤ b'.last_battery_temperature (pos 0) ≡ false))

not_beyond : (a c : Bool) → (a ≡ true → c ≡ true) → c ≡ false → a ≡ false
not_beyond true c f h = absurd (cc (f refl))
not_beyond false c f h = refl

allowed_of :
    (a plugged allowed : Bool) → a ≡ true → (a && not (plugged && allowed)) ≡ false → allowed ≡ true
allowed_of a plugged allowed h k = ground arith

choose-IsDecided :
    (b x y : Battery) (c : Bool) → IsDecided b x → IsDecided b y → IsDecided b (if c then x else y)
choose-IsDecided b x y true h k = h
choose-IsDecided b x y false h k = k

monitor_decides :
    (x : Reading) (plugged : Option Bool) (b : Battery)
    → IsDecided b (monitor_charger_status x plugged b)
unfolding monitor_charger_status
monitor_decides x none b = inl refl
monitor_decides x (some plugged) b =
    let t = b.last_battery_temperature in
    let critical = is_battery_temperature_in_critical_for_charge t b.protectors in
    let bands = protection_bands t b.protectors in
    let sample = sample_of x plugged (not critical.0) b in
    let band : (process sample b.controller).charger_status ≡ active
        → (leb_ℤ (pos 45) t ≡ false) × (leb_ℤ t (pos 0) ≡ false) =
      λ e.
        (let allowed =
            allowed_of (is_active (process sample b.controller).charger_status) plugged
              (not critical.0) (ap is_active e) (active_allowed sample b.controller) in
          let fine : critical.0 ≡ false = ground (arith, allowed) in
          (
            not_beyond _ _ (λ h. bands.0 (inl h)) fine,
            not_beyond _ _ (λ h. bands.0 (inr h)) fine,
          )) in
    choose-IsDecided b _ _ (is_same (process sample b.controller).charger_status b.charger_status)
      (inr band) (inr band)

before-IsDecided : (a b c : Battery) → KeepsControl a b → IsDecided b c → IsDecided a c
before-IsDecided a b c h (inl k) = inl (k ∙ h.same_controller)
before-IsDecided a b c h (inr k) = inr k

behind-IsDecided : (a b c : Battery) → IsDecided a b → KeepsControl b c → IsDecided a c
behind-IsDecided a b c (inl h) k = inl (k.same_controller ∙ h)
behind-IsDecided a b c (inr h) k = inr (λ e.
    subst (λ t. (leb_ℤ (pos 45) t ≡ false) × (leb_ℤ t (pos 0) ≡ false)) (sym k.same_temperature)
      (h (sym (ap (λ c. c.charger_status) k.same_controller) ∙ e)))

charger_decides : (x : Reading) (b : Battery) → IsDecided b (poll_charger x b)
unfolding poll_charger
charger_decides x b =
    let sounded = check_charger_status_to_play_sound_icon x b in
    let started = start_soc sounded in
    let counted = record started { cnt = started.cnt + 1 } in
    let monitored =
      if started.cnt % 40 == 0 then monitor_charger_status x x.ac_plugged counted else counted in
    let kept : KeepsControl b counted =
      KeepsControl-trans (KeepsControl-trans (sound_keeps x b) (soc_keeps sounded))
        (keeps refl refl) in
    let decided : IsDecided b monitored = before-IsDecided b counted monitored kept (
      choose-IsDecided counted _ _ (started.cnt % 40 == 0) (monitor_decides x x.ac_plugged counted)
        (inl refl)) in
    let levelled = monitor_battery_level x monitored in
    behind-IsDecided b levelled (monitor_power_bank_mode x levelled)
      (behind-IsDecided b monitored levelled decided (monitor_keeps x monitored))
      (bank_keeps x levelled)

setup_decides : (x : Reading) (b : Battery) → IsDecided b (poll_setup x b)
unfolding poll_setup
setup_decides x b =
    let tried = record b { is_charger_initialized = not (is_zero x.charger_setup) } in
    choose-IsDecided b _ _ b.is_charger_initialized (charger_decides x b) (
      choose-IsDecided b _ _ (not (not (is_zero x.charger_setup))) (inl refl) (
        before-IsDecided b (set_charge_type b.is_battery_friendly tried)
          (poll_charger x (set_charge_type b.is_battery_friendly tried))
          (KeepsControl-trans (keeps {b = b} {b' = tried} refl refl)
            (type_keeps b.is_battery_friendly tried))
          (charger_decides x (set_charge_type b.is_battery_friendly tried))))

updated_controller :
    (x : Reading) (b : Battery) → (update_battery_temperature x b).controller ≡ b.controller
unfolding update_battery_temperature
updated_controller x b = ground arith

poll_decides : (x : Reading) (b : Battery) → IsDecided b (poll x b)
unfolding poll
poll_decides x b =
    let updated = update_battery_temperature x b in
    let reported = report_temperature updated in
    let k = report_keeps updated in
    let same : reported.controller ≡ b.controller = k.same_controller ∙ updated_controller x b in
    let critical =
      is_battery_temperature_in_critical_for_discharge reported.last_battery_temperature
        reported.protectors in
    choose-IsDecided b _ _ critical.0
      (choose-IsDecided b _ _ (x.power_is_on && not reported.is_ntc_lost) (inl same) (inl same))
      (elim (setup_decides x (record reported { protectors = critical.1 })) [
        | inl h ↦ inl (h ∙ same)
        | inr h ↦ inr h
      ])

-- Whatever is read: a call of `poll` leaves the charge controller as it was, or, if the controller charges behind
-- it, the temperature of the battery that was read last is strictly between 0 and 45 degrees.
pub poll_charges_in_band :
    (x : Reading) (b : Battery)
    → (poll x b).controller.charger_status ≡ active
    → ((poll x b).controller ≡ b.controller)
      ⊎ ((leb_ℤ (pos 45) (poll x b).last_battery_temperature ≡ false)
          × (leb_ℤ (poll x b).last_battery_temperature (pos 0) ≡ false))
poll_charges_in_band x b charging = elim (poll_decides x b) [
  | inl h ↦ inl h
  | inr h ↦ inr (h charging)
]
