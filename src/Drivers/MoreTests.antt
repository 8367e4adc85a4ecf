-- ===== src/Drivers/MoreTests.antt =====
-- The charger and the virtual EEPROM at concrete inputs: a chip that never fails, and variables in memory.
use mynd_firmware.Prelude.{◌≡◌, refl, [], ◌∷◌, arith}
use mathlib.Core.List.Memᴰ
use mynd_firmware.Prelude.Memory.{Memory, store}
use mynd_firmware.Prelude.Int.{pos}
use mynd_firmware.Drivers.Tests.{fresh}
use mynd_firmware.Drivers.Eeprom.{
  Emulation, veeprom_address_write, write_from, veeprom_address_write_buffer,
  veeprom_address_read_buffer,
}
use mynd_firmware.Drivers.Variables.{KeepsVariables, write_buffer-read_buffer}

abbrev variables : Emulation Memory
variables = record {
  flash_lock = λ s. s;
  flash_unlock = λ s. s;
  ee_init = λ s. (pos 0, s);
  ee_read = λ a s. (pos 0, s a);
  ee_write = λ a v s. (pos 0, store s a v);
}

-- Addresses 20 to 22 are listed, and every address keeps what is written.
variables-KeepsVariables : KeepsVariables variables (20 ∷ 21 ∷ 22 ∷ [])
variables-KeepsVariables = record {
  allowed = (omega arith, (omega arith, (omega arith, tt)));
  locked = λ a s. refl;
  unlocked = λ a s. refl;
  reads_back = λ a v s listed h. ground arith;
  keeps_others = λ a b v w s listed listed' h apart found. ground (arith, apart, found);
}

write_buffer-read_buffer_example :
    let t = (veeprom_address_write_buffer variables 20 (7 ∷ 8 ∷ 9 ∷ []) fresh).1 in
    (veeprom_address_read_buffer variables 20 3 t ≡ (pos 0, 7 ∷ 8 ∷ 9 ∷ []))
    × (veeprom_address_write_buffer variables 20 (7 ∷ 8 ∷ 9 ∷ []) t ≡ (pos 0, t))
unfolding veeprom_address_write_buffer write_from veeprom_address_write
write_buffer-read_buffer_example =
    write_buffer-read_buffer variables (20 ∷ 21 ∷ 22 ∷ []) variables-KeepsVariables 20
      (7 ∷ 8 ∷ 9 ∷ []) fresh
      (Memᴰ.head refl, (Memᴰ.tail (Memᴰ.head refl), (Memᴰ.tail (Memᴰ.tail (Memᴰ.head refl)), tt)))
      (omega arith) refl
