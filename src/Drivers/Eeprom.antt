-- ===== src/Drivers/Eeprom.antt =====
-- virtual_eeprom.c over ST's emulation of an EEPROM in flash (the copy of ST's library in eeprom.c), which is a
-- parameter. The semaphore around each
-- function is left out: one call runs at a time. Addresses have 16 bits.
use mynd_firmware.Prelude.{ℕ, zero, suc, ◌+◌, ◌%◌, ◌&&◌, List, [], ◌∷◌, ◌==◌, if◌then◌else◌}
use mynd_firmware.Prelude.Words.{u16_mod}
use mynd_firmware.Prelude.Int.{ℤ, pos, negsuc, is_zero}

-- The functions of the emulation and of the flash; `ee_read` gives its result and the variable.
pub record Emulation (S : Type 0) : Type 0 where
  pub flash_lock : S → S
  pub flash_unlock : S → S
  pub ee_init : S → ℤ × S
  pub ee_read : ℕ → S → ℤ × ℕ
  pub ee_write : ℕ → ℕ → S → ℤ × S

module _ {S : Type 0} (ee : Emulation S) where
  unfoldable pub veeprom_init : S → ℤ × S
  veeprom_init s =
      let started = ee.ee_init (ee.flash_unlock (ee.flash_lock s)) in
      if is_zero started.0 then (pos 0, ee.flash_lock started.1) else (negsuc 0, started.1)

  -- The variable is written only if it does not hold the value.
  unfoldable pub veeprom_address_write : ℕ → ℕ → S → ℤ × S
  veeprom_address_write addr value s =
      let tmp = ee.ee_read addr s in
      let written = ee.ee_write addr value (ee.flash_unlock s) in
      if is_zero tmp.0 && tmp.1 == value then (pos 0, s) else (written.0, ee.flash_lock written.1)

  -- The body of the loop is that of veeprom_address_write.
  unfoldable pub write_from : ℕ → List ℕ → S → ℤ × S
  write_from addr [] s = (pos 0, s)
  write_from addr (value ∷ values) s =
      let one = veeprom_address_write (addr % u16_mod) value s in
      let rest = write_from (addr + 1) values one.1 in if is_zero one.0 then rest else one

  unfoldable pub veeprom_address_write_buffer : ℕ → List ℕ → S → ℤ × S
  veeprom_address_write_buffer addr values s = write_from addr values s

  unfoldable pub veeprom_address_read : ℕ → S → ℤ × ℕ
  veeprom_address_read addr s = ee.ee_read addr s

  -- The result, and the variables that were read without an error.
  unfoldable pub veeprom_address_read_buffer : ℕ → ℕ → S → ℤ × List ℕ
  veeprom_address_read_buffer addr zero s = (pos 0, [])
  veeprom_address_read_buffer addr (suc size) s =
      let one = ee.ee_read (addr % u16_mod) s in
      let rest = veeprom_address_read_buffer (addr + 1) size s in
      if is_zero one.0 then (rest.0, one.1 ∷ rest.1) else (one.0, [])
