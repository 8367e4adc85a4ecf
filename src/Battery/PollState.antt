-- ===== src/Battery/PollState.antt =====
-- battery.cpp: what `poll` reads, and the state of the battery task. Parameters of the model, in `Reading`:
-- the values of the converter's filters, the state of charge, which is estimated in floating point, the
-- temperature that the polynomial gives, and what the drivers answer.
use mynd_firmware.Prelude.{ℕ, List, Bool, Option}
use mynd_firmware.Prelude.Int.{ℤ}
use mynd_firmware.Charge.Controller.{ChargerStatus, Controller}
use mynd_firmware.Battery.Temperature.{Protectors, BatteryCriticalTemperature}
use mynd_firmware.Battery.Indicator.{Indicator}
use mynd_firmware.Battery.Voltage.{Voltage}

-- What a call of `poll` reads.
pub record Reading : Type 0 where
  pub tick : ℕ
  pub adc_taken : Bool
  pub raw_ntc : ℕ
  pub ntc_temperature : ℤ
  pub bat_voltage : ℕ
  pub vdda : ℕ
  pub charger_setup : ℤ
  pub charger_connected : Option Bool
  pub ac_plugged : Option Bool
  pub soc_level : ℕ
  pub power_is_on : Bool
  pub power_is_off : Bool

-- What it makes other parts do, less the calls of the charger, which the controller keeps.
pub data Action : Type 0 where
  post_critical_temperature : BatteryCriticalTemperature → Action
  power_off_by_temperature power_off_by_level power_off_by_level_after_boot : Action
  enable_fast_charge max_source_current_1a : Bool → Action
  request_charging_icon soc_on_discharge soc_save : Action
  soc_init : ℕ → Action
  post_battery_level : ℕ → Action
  post_charger_status : ChargerStatus → Action

-- `s_battery`, the static variables of the functions, the properties, and the actions, newest first.
pub record Battery : Type 0 where
  pub is_charger_initialized : Bool
  pub critical_temp_status : BatteryCriticalTemperature
  pub last_poll_timestamp_ms : ℕ
  pub last_battery_voltage_mv : ℕ
  pub voltage : Voltage
  pub last_battery_current : ℤ
  pub last_battery_temperature : ℤ
  pub is_ntc_lost : Bool
  pub temperature_ts : ℕ
  pub protectors : Protectors
  pub is_charger_connected : Bool
  pub charger_status_ts : ℕ
  pub is_soc_started : Bool
  pub cnt : ℕ
  pub controller : Controller
  pub indicator : Indicator
  pub battery_level : ℕ
  pub charger_status : ChargerStatus
  pub is_battery_friendly : Bool
  pub low_battery_mode : Bool
  pub is_power_bank : Bool
  pub power_bank_ts : ℕ
  pub save_ts : ℕ
  pub actions : List Action
