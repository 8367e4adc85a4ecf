-- ===== src/Battery/Poll.antt =====
-- battery.cpp: `poll` of the battery task and the functions that it calls, over the charge controller, the
-- indicator and the protections. A call reads everything at one tick, and `cnt` stays within its type.
use mynd_firmware.Prelude.{
  ◌+◌, ◌%◌, ◌∷◌, Bool, true, false, not, ◌&&◌, Option, none, some, leb, ltb, ◌==◌, if◌then◌else◌,
  bool_eq,
}
use mynd_firmware.Prelude.Words.{get_ms_since, to_int16}
use mynd_firmware.Prelude.Int.{pos, is_zero}
use mynd_firmware.Charge.Controller.{active, Sample, process, is_same}
use mynd_firmware.Core.Hysteresis.{hysteresis}
use mynd_firmware.Battery.Temperature.{
  is_battery_temperature_in_critical_for_charge, is_battery_temperature_in_critical_for_discharge,
  BatteryCriticalTemperature, charge_under_temp, charge_over_temp, discharge_under_temp,
  discharge_over_temp, temp_ok, ntc_lost, battery_temperature_state,
}
use mynd_firmware.Battery.Indicator.{check_battery_level, update_charger_status}
use mynd_firmware.Battery.PollState.{
  Reading, Battery, Action, post_critical_temperature, power_off_by_temperature, power_off_by_level,
  power_off_by_level_after_boot, enable_fast_charge, max_source_current_1a, request_charging_icon,
  soc_on_discharge, soc_save, soc_init, post_battery_level, post_charger_status,
}
use mynd_firmware.Battery.Voltage.{add_sample, max_element, battery_voltage_mv}

abbrev act : Action → Battery → Battery
act a b = record b { actions = a ∷ b.actions }

-- update_battery_temperature
unfoldable pub update_battery_temperature : Reading → Battery → Battery
update_battery_temperature x b =
    let taken = record b { temperature_ts = x.tick } in
    if not (ltb 2000 (get_ms_since x.tick b.temperature_ts))
    then b
    else if not x.adc_taken
    then taken
    else if ltb 3800 x.raw_ntc
    then record taken { is_ntc_lost = true }
    else record taken { is_ntc_lost = false; last_battery_temperature = x.ntc_temperature }

abbrev pub same_critical : BatteryCriticalTemperature → BatteryCriticalTemperature → Bool
same_critical charge_under_temp charge_under_temp = true
same_critical charge_over_temp charge_over_temp = true
same_critical discharge_under_temp discharge_under_temp = true
same_critical discharge_over_temp discharge_over_temp = true
same_critical temp_ok temp_ok = true
same_critical ntc_lost ntc_lost = true
same_critical _ _ = false

-- The part of `poll` that reports a critical temperature.
unfoldable pub report_temperature : Battery → Battery
report_temperature b =
    let state = battery_temperature_state b.last_battery_temperature b.protectors in
    let status = if b.is_ntc_lost then ntc_lost else state.0 in
    let checked = record b { protectors = state.1 } in
    if same_critical status b.critical_temp_status then checked else record checked {
      critical_temp_status = status;
      actions = post_critical_temperature status ∷ b.actions;
    }

-- set_charge_type
unfoldable pub set_charge_type : Bool → Battery → Battery
set_charge_type battery_friendly b =
    let set = record b { is_battery_friendly = battery_friendly } in
    if is_same b.charger_status active
    then act (enable_fast_charge (not battery_friendly)) set
    else set

-- toggle_fast_charging
unfoldable pub toggle_fast_charging : Battery → Battery
unfolding set_charge_type
toggle_fast_charging b = set_charge_type (not b.is_battery_friendly) b

-- check_charger_status_to_play_sound_icon: what the driver answers is none on an error.
unfoldable pub check_charger_status_to_play_sound_icon : Reading → Battery → Battery
check_charger_status_to_play_sound_icon x b =
    let connected : Bool = elim x.charger_connected [ none ↦ false | some c ↦ c ] in
    let checked = record b { is_charger_connected = connected; charger_status_ts = x.tick } in
    if not (ltb 1000 (get_ms_since x.tick b.charger_status_ts))
    then b
    else if connected && not b.is_charger_connected
    then act request_charging_icon checked
    else checked

-- The one call of soc_estimator.init.
unfoldable pub start_soc : Battery → Battery
start_soc b =
    if b.voltage.is_battery_voltage_stable && not b.is_soc_started
    then record b {
      is_soc_started = true;
      actions = soc_init b.last_battery_voltage_mv ∷ b.actions;
    }
    else b

-- What the charge controller is given; its parameter for the current has 16 bits.
abbrev pub sample_of : Reading → Bool → Bool → Battery → Sample
sample_of x plugged allowed b = record {
  battery_voltage_mv = b.last_battery_voltage_mv;
  battery_current_ma = to_int16 b.last_battery_current;
  charger_ntc_allowed = allowed;
  ac_plugged = plugged;
  bfc_enabled = b.is_battery_friendly;
  tick = x.tick;
}

-- monitor_charger_status, for what the charger answers of the supply.
unfoldable pub monitor_charger_status : Reading → Option Bool → Battery → Battery
monitor_charger_status x none b = b
monitor_charger_status x (some plugged) b =
    let critical =
      is_battery_temperature_in_critical_for_charge b.last_battery_temperature b.protectors in
    let controller = process (sample_of x plugged (not critical.0) b) b.controller in
    let processed = record b { protectors = critical.1; controller = controller } in
    if is_same controller.charger_status b.charger_status then processed else record processed {
      charger_status = controller.charger_status;
      indicator = update_charger_status controller.charger_status b.indicator;
      actions = post_charger_status controller.charger_status ∷ b.actions;
    }

-- The level of the battery in monitor_battery_level.
unfoldable pub report_level : Reading → Battery → Battery
report_level x b = if x.soc_level == b.battery_level then b else record b {
  battery_level = x.soc_level;
  indicator = check_battery_level x.soc_level x.tick b.indicator;
  actions = post_battery_level x.soc_level ∷ b.actions;
}

unfoldable pub save_soc : Reading → Battery → Battery
save_soc x b =
    if x.power_is_off && ltb 60000 (get_ms_since x.tick b.save_ts)
    then record b { save_ts = x.tick; actions = soc_save ∷ b.actions }
    else b

-- The end of monitor_battery_level: the power is switched off.
unfoldable pub check_voltage : Reading → Battery → Battery
check_voltage x b =
    let reason = if ltb x.tick 15000 then power_off_by_level_after_boot else power_off_by_level in
    if leb b.last_battery_voltage_mv 6200
    then record b { actions = reason ∷ soc_on_discharge ∷ b.actions }
    else b

-- monitor_battery_level
unfoldable pub monitor_battery_level : Reading → Battery → Battery
monitor_battery_level x b =
    let voltage = add_sample (battery_voltage_mv x.bat_voltage x.vdda) b.voltage in
    let sampled = record b { last_poll_timestamp_ms = x.tick; voltage = voltage } in
    let greatest = max_element voltage.battery_voltage_buffer in
    if ltb (get_ms_since x.tick b.last_poll_timestamp_ms) 200
    then b
    else if not voltage.is_battery_voltage_stable
    then sampled
    else if b.is_ntc_lost
    then sampled
    else check_voltage x
        (save_soc x (report_level x (record sampled { last_battery_voltage_mv = greatest })))

-- monitor_power_bank_mode
unfoldable pub monitor_power_bank_mode : Reading → Battery → Battery
monitor_power_bank_mode x b =
    let low = hysteresis (pos 20) (pos 40) b.low_battery_mode (pos b.battery_level) in
    let checked = record b { power_bank_ts = x.tick; low_battery_mode = low } in
    if not (ltb 2000 (get_ms_since x.tick b.power_bank_ts))
    then b
    else if bool_eq (not low) b.is_power_bank
    then checked
    else record checked {
      is_power_bank = not low;
      actions = max_source_current_1a (not low) ∷ b.actions;
    }

-- The rest of `poll` behind the set-up of the charger; `cnt++ % 40` reads the counter before it grows.
unfoldable pub poll_charger : Reading → Battery → Battery
poll_charger x b =
    let started = start_soc (check_charger_status_to_play_sound_icon x b) in
    let counted = record started { cnt = started.cnt + 1 } in
    let monitored =
      if started.cnt % 40 == 0 then monitor_charger_status x x.ac_plugged counted else counted in
    monitor_power_bank_mode x (monitor_battery_level x monitored)

-- The retry of the set-up: the int that board_link_charger_setup returns becomes the bool.
unfoldable pub poll_setup : Reading → Battery → Battery
poll_setup x b =
    let initialized = not (is_zero x.charger_setup) in
    let tried = record b { is_charger_initialized = initialized } in
    if b.is_charger_initialized
    then poll_charger x b
    else if not initialized
    then tried
    else poll_charger x (set_charge_type tried.is_battery_friendly tried)

-- `poll`
unfoldable pub poll : Reading → Battery → Battery
poll x b =
    let reported = report_temperature (update_battery_temperature x b) in
    let critical =
      is_battery_temperature_in_critical_for_discharge reported.last_battery_temperature
        reported.protectors in
    let checked = record reported { protectors = critical.1 } in
    if critical.0
    then (if x.power_is_on && not reported.is_ntc_lost
        then act power_off_by_temperature checked
        else checked)
    else poll_setup x checked
