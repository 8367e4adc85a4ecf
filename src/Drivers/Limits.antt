-- ===== src/Drivers/Limits.antt =====
-- The limits that are set in the charger, read back, and the digits of its first option register.
use Prim.Native.Nat.{bit_and}
use mynd_firmware.Prelude.{
  ℕ, ◌+◌, ◌-◌, ◌*◌, ◌/◌, ◌%◌, ◌^◌, ◌<◌, ◌≡◌, ◌&&◌, refl, ap, ◌∙◌, true, [], ◌∷◌, some, ◌==◌, table,
  table_entry_of, arith,
}
use mynd_firmware.Prelude.Memory.{Memory, load_range, load_range-store_range}
use mynd_firmware.Prelude.Int.{is_zero, is_nonneg}
use mynd_firmware.Drivers.Bus.{Bus, IsRegisters}
use mynd_firmware.Drivers.Charger.{
  bq25713_read_register, bq25713_write_register, read_word, bq25713_get_max_charge_voltage_mv,
  bq25713_set_max_charge_voltage_mv, bq25713_get_charge_current_ma, bq25713_set_charge_current_ma,
}

voltage_table : table 256 (λ x. (bit_and x 0xf8 == x - x % 8) && (bit_and x 0x7f == x % 128)) ≡ true
unfolding table
voltage_table = refl

current_table : table 256 (λ x. (bit_and x 0xc0 == x - x % 64) && (bit_and x 0x1f == x % 32)) ≡ true
unfolding table
current_table = refl

masked_voltage : (x : ℕ) → x < 256 → (bit_and x 0xf8 ≡ x - x % 8) × (bit_and x 0x7f ≡ x % 128)
masked_voltage x h = ground (arith, table_entry_of _ 256 x h voltage_table)

masked_current : (x : ℕ) → x < 256 → (bit_and x 0xc0 ≡ x - x % 64) × (bit_and x 0x1f ≡ x % 32)
masked_current x h = ground (arith, table_entry_of _ 256 x h current_table)

module _ {S : Type 0} (bus : Bus S) (registers : S → Memory)
    (laws : IsRegisters bus registers) where
  word_read_back :
      (reg low high : ℕ) (s : S)
      → is_zero (bq25713_write_register bus reg (low ∷ high ∷ []) s).0 ≡ true
      → let t = (bq25713_write_register bus reg (low ∷ high ∷ []) s).1 in
        is_zero (read_word bus reg t).0 ≡ true → (read_word bus reg t).1 ≡ some (high * 256 + low)
  unfolding bq25713_write_register bq25713_read_register read_word
  word_read_back reg low high s h k =
      let w = bus.i2c_write reg (low ∷ high ∷ []) s in
      let t = w.1 in
      let r = bus.i2c_read reg 2 t in
      let sent : is_nonneg w.0 ≡ true = laws.write_result reg (low ∷ high ∷ []) s ∙ h in
      let zero_read : is_zero r.0 ≡ true = ground (arith, k) in
      let stored = laws.write_stores reg (low ∷ high ∷ []) s sent in
      let bytes : r.1 ≡ low ∷ high ∷ [] =
        laws.read_bytes reg 2 t (laws.read_result reg 2 t ∙ zero_read)
        ∙ ap (λ m. load_range m reg 2) stored
        ∙ load_range-store_range (registers s) reg (low ∷ high ∷ []) in
      rw (zero_read, bytes) refl

  -- What was set is read back, in steps of 8 mV below 2 ^ 15 and of 64 mA below 2 ^ 13.
  limits_read_back :
      (voltage_mv current_ma : ℕ) (s s' : S)
      → voltage_mv < 2 ^ 16
      → current_ma < 2 ^ 16
      → is_zero (bq25713_set_max_charge_voltage_mv bus voltage_mv s).0 ≡ true
      → is_zero (bq25713_set_charge_current_ma bus current_ma s').0 ≡ true
      → let voltage =
          bq25713_get_max_charge_voltage_mv bus
            (bq25713_set_max_charge_voltage_mv bus voltage_mv s).1 in
        let current =
          bq25713_get_charge_current_ma bus (bq25713_set_charge_current_ma bus current_ma s').1 in
        is_zero voltage.0 ≡ true
        → is_zero current.0 ≡ true
        → (voltage.1 ≡ some (voltage_mv % 2 ^ 15 - voltage_mv % 8))
          × (current.1 ≡ some (current_ma % 2 ^ 13 - current_ma % 64))
  unfolding bq25713_set_max_charge_voltage_mv bq25713_set_charge_current_ma
      bq25713_get_max_charge_voltage_mv bq25713_get_charge_current_ma
  limits_read_back voltage_mv current_ma s s' hv hc sv sc gv gc =
      let v = masked_voltage (voltage_mv % 256) (omega arith) in
      let v' = masked_voltage (voltage_mv / 256) (omega (arith, hv)) in
      let c = masked_current (current_ma % 256) (omega arith) in
      let c' = masked_current (current_ma / 256) (omega (arith, hc)) in
      (
        word_read_back 0x04 (bit_and (voltage_mv % 256) 0xf8) (bit_and (voltage_mv / 256) 0x7f) s sv
              gv
            ∙ ap some (omega (arith, v.0, v'.1, hv)),
        word_read_back 0x02 (bit_and (current_ma % 256) 0xc0) (bit_and (current_ma / 256) 0x1f) s'
              sc gc
            ∙ ap some (omega (arith, c.0, c'.1, hc)),
      )
