-- ===== src/Battery/Tests.antt =====
-- The battery task at concrete readings.
use mynd_firmware.Prelude.{ℕ, ◌≡◌, ◌⊎◌, refl, List, [], ◌∷◌, true, false, Option, none, some}
use mynd_firmware.Prelude.Int.{ℤ, pos}
use mynd_firmware.Charge.Controller.{
  ChargerStatus, active, inactive, not_connected, initial_controller, process, count, next_status,
  while_inactive,
}
use mynd_firmware.Core.Hysteresis.{leb_ℤ, hysteresis}
use mynd_firmware.Battery.Temperature.{
  initial_protectors, battery_temperature_state, temp_ok,
  is_battery_temperature_in_critical_for_charge, is_battery_temperature_in_critical_for_discharge,
}
use mynd_firmware.Battery.Indicator.{
  Indicator, initial_indicator, check_all, check_battery_level, low5, low10, levels_indicated_once,
}
use mynd_firmware.Battery.Voltage.{initial_voltage, add_sample, add_samples}
use mynd_firmware.Prelude.Words.{get_ms_since}
use mynd_firmware.Battery.PollState.{Battery, Reading}
use mynd_firmware.Battery.Poll.{
  poll, poll_setup, poll_charger, report_temperature, update_battery_temperature,
  monitor_charger_status, monitor_battery_level, monitor_power_bank_mode, start_soc,
  check_charger_status_to_play_sound_icon,
}
use mynd_firmware.Battery.PollLaws.{poll_all, successful_setup_ignored}
use mynd_firmware.Battery.Charging.{poll_charges_in_band}

abbrev levels : List (ℕ × ℕ)
levels = (9, 30000) ∷ (7, 31000) ∷ (4, 40000) ∷ (3, 41000) ∷ []

abbrev switched_on : Indicator
switched_on = record {
  is_low5_indicated = false;
  is_low10_indicated = false;
  charger_status = not_connected;
  power_on_ts = 12000;
  power_is_on = true;
  actions = [];
}

levels_indicated_once_example :
    ((check_all levels switched_on).actions ≡ [])
    ⊎ (((check_all levels switched_on).actions ≡ low5 ∷ [])
        ⊎ (((check_all levels switched_on).actions ≡ low10 ∷ [])
            ⊎ ((check_all levels switched_on).actions ≡ low5 ∷ low10 ∷ [])))
levels_indicated_once_example = levels_indicated_once levels switched_on refl refl

both_levels : (check_all levels switched_on).actions ≡ low5 ∷ low10 ∷ []
unfolding check_all check_battery_level
both_levels = refl

-- A battery at 25 degrees on a connected supply, whose charger could not be set up at first.
abbrev battery : ChargerStatus → Option ℕ → Battery
battery status below = record {
  is_charger_initialized = false;
  critical_temp_status = temp_ok;
  last_poll_timestamp_ms = 0;
  last_battery_voltage_mv = 7000;
  voltage = initial_voltage;
  last_battery_current = pos 0;
  last_battery_temperature = pos 25;
  is_ntc_lost = false;
  temperature_ts = 0;
  protectors = initial_protectors;
  is_charger_connected = false;
  charger_status_ts = 0;
  is_soc_started = false;
  cnt = 40;
  controller = record initial_controller { charger_status = status; battery_below_8100mv = below };
  indicator = initial_indicator;
  battery_level = 50;
  charger_status = status;
  is_battery_friendly = false;
  low_battery_mode = false;
  is_power_bank = false;
  power_bank_ts = 0;
  save_ts = 0;
  actions = [];
}

abbrev reading : ℕ → ℤ → Reading
reading tick setup = record {
  tick = tick;
  adc_taken = true;
  raw_ntc = 2000;
  ntc_temperature = pos 26;
  bat_voltage = 3000;
  vdda = 3300;
  charger_setup = setup;
  charger_connected = some true;
  ac_plugged = some true;
  soc_level = 50;
  power_is_on = true;
  power_is_off = false;
}

abbrev readings : List Reading
readings = reading 1000 (pos 0) ∷ reading 1025 (pos 0) ∷ []

successful_setup_ignored_example :
    ((poll_all readings (battery inactive none)).is_charger_initialized ≡ false)
    × ((poll_all readings (battery inactive none)).controller ≡ (battery inactive none).controller)
    × ((poll_all readings (battery inactive none)).voltage ≡ initial_voltage)
successful_setup_ignored_example =
    successful_setup_ignored readings (battery inactive none) refl (refl, (refl, tt))

abbrev ready : Battery
ready = record (battery inactive (some 1000)) { is_charger_initialized = true }

starts_charging : (poll (reading 7000 (pos 0)) ready).controller.charger_status ≡ active
unfolding poll update_battery_temperature report_temperature battery_temperature_state
    is_battery_temperature_in_critical_for_charge is_battery_temperature_in_critical_for_discharge
    hysteresis poll_setup poll_charger check_charger_status_to_play_sound_icon start_soc
    monitor_charger_status monitor_battery_level monitor_power_bank_mode process next_status
    while_inactive count get_ms_since add_samples add_sample
starts_charging = refl

poll_charges_in_band_example :
    ((poll (reading 7000 (pos 0)) ready).controller ≡ ready.controller)
    ⊎ ((leb_ℤ (pos 45) (poll (reading 7000 (pos 0)) ready).last_battery_temperature ≡ false)
        × (leb_ℤ (poll (reading 7000 (pos 0)) ready).last_battery_temperature (pos 0) ≡ false))
poll_charges_in_band_example = poll_charges_in_band (reading 7000 (pos 0)) ready starts_charging
