-- ===== src/Battery/PollLaws.antt =====
-- What `poll` of battery.cpp does to the charger.
use mynd_firmware.Prelude.{
  ◌≡◌, refl, sym, ap, ◌∙◌, List, [], ◌∷◌, Bool, true, false, not, ◌&&◌, All, if◌then◌else◌, arith,
}
use mynd_firmware.Prelude.Int.{pos, is_zero}
use mynd_firmware.Battery.Temperature.{is_battery_temperature_in_critical_for_discharge}
use mynd_firmware.Battery.PollState.{Battery, Reading}
use mynd_firmware.Battery.Poll.{poll, poll_setup, report_temperature, update_battery_temperature}

-- The parts of the battery task that concern the charger.
record KeepsCharger (b b' : Battery) : Type 0 where
  same_controller : b'.controller ≡ b.controller
  same_voltage : b'.voltage ≡ b.voltage
  same_setup : b'.is_charger_initialized ≡ b.is_charger_initialized

update_keeps : (x : Reading) (b : Battery) → KeepsCharger b (update_battery_temperature x b)
unfolding update_battery_temperature
update_keeps x b = ground arith

report_keeps : (b : Battery) → KeepsCharger b (report_temperature b)
unfolding report_temperature
report_keeps b = ground arith

KeepsCharger-trans : {a b c : Battery} → KeepsCharger a b → KeepsCharger b c → KeepsCharger a c
KeepsCharger-trans h k = record {
  same_controller = k.same_controller ∙ h.same_controller;
  same_voltage = k.same_voltage ∙ h.same_voltage;
  same_setup = k.same_setup ∙ h.same_setup;
}

choose_keeps :
    (b x y : Battery) (c : Bool)
    → (c ≡ true → KeepsCharger b x)
    → (c ≡ false → KeepsCharger b y)
    → KeepsCharger b (if c then x else y)
choose_keeps b x y true f g = f refl
choose_keeps b x y false f g = g refl

-- A set-up that succeeds where the charger was not initialised.
setup_keeps :
    (x : Reading) (b : Battery)
    → b.is_charger_initialized ≡ false
    → x.charger_setup ≡ pos 0
    → KeepsCharger b (poll_setup x b)
unfolding poll_setup
setup_keeps x b off ok =
    let zero_is : not (is_zero x.charger_setup) ≡ false = ap (λ z. not (is_zero z)) ok in
    choose_keeps b _ _ b.is_charger_initialized (λ on. absurd (cc))
      (λ _.
        choose_keeps b _ _ (not (not (is_zero x.charger_setup)))
          (λ _. record {
            same_controller = refl;
            same_voltage = refl;
            same_setup = zero_is ∙ sym off;
          })
          (λ (e : not (not (is_zero x.charger_setup)) ≡ false). absurd (cc (ap not zero_is))))

poll_keeps :
    (x : Reading) (b : Battery)
    → b.is_charger_initialized ≡ false
    → x.charger_setup ≡ pos 0
    → KeepsCharger b (poll x b)
unfolding poll
poll_keeps x b off ok =
    let updated = update_battery_temperature x b in
    let reported = report_temperature updated in
    let k = KeepsCharger-trans (update_keeps x b) (report_keeps updated) in
    let critical =
      is_battery_temperature_in_critical_for_discharge reported.last_battery_temperature
        reported.protectors in
    choose_keeps b _ _ critical.0
      (λ _.
        choose_keeps b _ _ (x.power_is_on && not reported.is_ntc_lost)
          (λ _. record {
            same_controller = k.same_controller;
            same_voltage = k.same_voltage;
            same_setup = k.same_setup;
          })
          (λ _. record {
            same_controller = k.same_controller;
            same_voltage = k.same_voltage;
            same_setup = k.same_setup;
          }))
      (λ _.
        KeepsCharger-trans
          (record {
            same_controller = k.same_controller;
            same_voltage = k.same_voltage;
            same_setup = k.same_setup;
          })
          (setup_keeps x (record reported { protectors = critical.1 }) (k.same_setup ∙ off) ok))

-- Calls of `poll`, in order.
unfoldable pub poll_all : List Reading → Battery → Battery
poll_all [] b = b
poll_all (x ∷ readings) b = poll_all readings (poll x b)

poll_all-KeepsCharger :
    (readings : List Reading) (b : Battery)
    → b.is_charger_initialized ≡ false
    → All (λ (x : Reading). x.charger_setup ≡ pos 0) readings
    → KeepsCharger b (poll_all readings b)
unfolding poll_all
poll_all-KeepsCharger [] b off ok = record {
  same_controller = refl;
  same_voltage = refl;
  same_setup = refl;
}
poll_all-KeepsCharger (x ∷ readings) b off ok =
    let one = poll_keeps x b off ok.0 in
    KeepsCharger-trans one (poll_all-KeepsCharger readings (poll x b) (one.same_setup ∙ off) ok.1)

-- Once the charger is not initialised, it stays so for as long as the set-up that `poll` tries again succeeds,
-- whatever else is read: the charge controller is not called, and the voltage is not sampled.
pub successful_setup_ignored :
    (readings : List Reading) (b : Battery)
    → b.is_charger_initialized ≡ false
    → All (λ (x : Reading). x.charger_setup ≡ pos 0) readings
    → ((poll_all readings b).is_charger_initialized ≡ false)
      × ((poll_all readings b).controller ≡ b.controller)
      × ((poll_all readings b).voltage ≡ b.voltage)
successful_setup_ignored readings b off ok =
    let k = poll_all-KeepsCharger readings b off ok in
    (k.same_setup ∙ off, k.same_controller, k.same_voltage)
