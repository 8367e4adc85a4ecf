-- ===== src/Drivers/Charger.antt =====
-- The driver of the BQ25713 charger, bq25713.c, for a handle that is not null. What a function stores through
-- its pointer is `none` when it stores nothing.
use Prim.Native.Nat.{bit_and}
use mynd_firmware.Prelude.{
  ℕ, ◌+◌, ◌*◌, ◌/◌, ◌%◌, ◌^◌, Bool, List, [], ◌∷◌, Option, none, some, get_or, if◌then◌else◌,
}
use mynd_firmware.Prelude.Bits.{modified}
use mynd_firmware.Prelude.Int.{ℤ, pos, negsuc, is_zero, is_nonneg}
use mynd_firmware.Drivers.Bus.{Bus}

-- BQ25713_REG_…
abbrev pub reg_charge_option0 : ℕ
reg_charge_option0 = 0x00

abbrev pub reg_charge_current : ℕ
reg_charge_current = 0x02

abbrev pub reg_charge_voltage : ℕ
reg_charge_voltage = 0x04

abbrev pub reg_charger_status : ℕ
reg_charger_status = 0x20

abbrev pub reg_device_id : ℕ
reg_device_id = 0x2f

module _ {S : Type 0} (bus : Bus S) where
  unfoldable pub bq25713_read_register : ℕ → ℕ → S → ℤ × List ℕ × S
  bq25713_read_register reg length s = bus.i2c_read reg length s

  unfoldable pub bq25713_write_register : ℕ → List ℕ → S → ℤ × S
  bq25713_write_register reg bytes s = bus.i2c_write reg bytes s

  unfoldable pub rmw_reg : ℕ → ℕ × ℕ → ℕ × ℕ → S → ℤ × S
  rmw_reg reg mask value s =
      let r = bus.i2c_read reg 2 s in
      let w =
        bus.i2c_write reg
          (modified (get_or r.1 0 0) mask.0 value.0 ∷ modified (get_or r.1 1 0) mask.1 value.1 ∷ [])
          r.2 in
      if is_nonneg r.0
      then (if is_nonneg w.0 then (pos 0, w.1) else (negsuc 0, w.1))
      else (negsuc 0, r.2)

  -- A register of two bytes, the lower one first.
  unfoldable pub read_word : ℕ → S → ℤ × Option ℕ × S
  read_word reg s =
      let r = bq25713_read_register reg 2 s in
      if is_zero r.0
      then (pos 0, some (get_or r.1 1 0 * 256 + get_or r.1 0 0), r.2)
      else (negsuc 0, none, r.2)

  -- A measurement in steps above an offset, cut to 16 bits.
  unfoldable pub read_measured : ℕ → ℕ → ℕ → S → ℤ × Option ℕ × S
  read_measured reg offset step s =
      let r = bq25713_read_register reg 1 s in
      if is_zero r.0
      then (pos 0, some ((offset + get_or r.1 0 0 * step) % 2 ^ 16), r.2)
      else (negsuc 0, none, r.2)

  unfoldable pub bq25713_get_device_id : S → ℤ × List ℕ × S
  bq25713_get_device_id s = bq25713_read_register reg_device_id 1 s

  -- The two bytes of the status: that of the charger and that of the faults.
  unfoldable pub bq25713_get_charger_status : S → ℤ × Option (ℕ × ℕ) × S
  bq25713_get_charger_status s =
      let r = bq25713_read_register reg_charger_status 2 s in
      if is_zero r.0
      then (pos 0, some (get_or r.1 1 0, get_or r.1 0 0), r.2)
      else (negsuc 0, none, r.2)

  unfoldable pub bq25713_get_max_charge_voltage_mv : S → ℤ × Option ℕ × S
  bq25713_get_max_charge_voltage_mv s = read_word reg_charge_voltage s

  -- The lower byte is stored before the upper one is computed; both are cut to a byte.
  unfoldable pub bq25713_set_max_charge_voltage_mv : ℕ → S → ℤ × S
  bq25713_set_max_charge_voltage_mv voltage_mv s =
      bq25713_write_register reg_charge_voltage
        (bit_and (voltage_mv % 256) 0xf8 ∷ bit_and (voltage_mv / 256) 0x7f ∷ []) s

  unfoldable pub bq25713_get_charge_current_ma : S → ℤ × Option ℕ × S
  bq25713_get_charge_current_ma s = read_word reg_charge_current s

  unfoldable pub bq25713_set_charge_current_ma : ℕ → S → ℤ × S
  bq25713_set_charge_current_ma current_ma s =
      bq25713_write_register reg_charge_current
        (bit_and (current_ma % 256) 0xc0 ∷ bit_and (current_ma / 256) 0x1f ∷ []) s

  unfoldable pub bq25713_get_battery_voltage_mv : S → ℤ × Option ℕ × S
  bq25713_get_battery_voltage_mv s = read_measured 0x2c 2880 64 s

  unfoldable pub bq25713_get_system_voltage_mv : S → ℤ × Option ℕ × S
  bq25713_get_system_voltage_mv s = read_measured 0x2d 2880 64 s

  unfoldable pub bq25713_get_input_voltage_mv : S → ℤ × Option ℕ × S
  bq25713_get_input_voltage_mv s = read_measured 0x27 3200 64 s

  unfoldable pub bq25713_get_input_current_ma : S → ℤ × Option ℕ × S
  bq25713_get_input_current_ma s = read_measured 0x2b 0 50 s

  unfoldable pub bq25713_get_adc_charge_current_ma : S → ℤ × Option ℕ × S
  bq25713_get_adc_charge_current_ma s = read_measured 0x29 0 64 s

  unfoldable pub bq25713_get_adc_discharge_current_ma : S → ℤ × Option ℕ × S
  bq25713_get_adc_discharge_current_ma s = read_measured 0x28 0 256 s

  unfoldable pub bq25713_get_system_power_mv : S → ℤ × Option ℕ × S
  bq25713_get_system_power_mv s = read_measured 0x26 0 12 s

  unfoldable pub bq25713_set_charge_inhibit : ℕ → S → ℤ × S
  bq25713_set_charge_inhibit charge_inhibit s =
      rmw_reg reg_charge_option0 (0x01, 0x00) (charge_inhibit, 0x00) s

  unfoldable pub bq25713_set_low_power_mode : Bool → S → ℤ × S
  bq25713_set_low_power_mode enable s =
      rmw_reg reg_charge_option0 (0x00, 0x80) (0x00, if enable then 0x80 else 0x00) s
