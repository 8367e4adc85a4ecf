-- ===== src/Drivers/Tests.antt =====
-- A chip with byte registers on a bus that never fails, and the drivers over it.
use mynd_firmware.Prelude.{◌≡◌, refl, true, ◌&&◌, ◌==◌, if◌then◌else◌, arith}
use mynd_firmware.Prelude.Memory.{Memory, store, load_range, store_range}
use mynd_firmware.Prelude.Bits.{bit}
use mynd_firmware.Prelude.Int.{pos, is_nonneg}
use mynd_firmware.Drivers.Bus.{Bus, IsRegisters}
use mynd_firmware.Drivers.Expander.{
  reg_output_port, aw9523b_init, aw9523b_write_pin, aw9523b_write_pin_cache, aw9523b_read_pin_cache,
}
use mynd_firmware.Drivers.Pins.{write_pin_digit, write_pin_cache-read_pin_cache}

abbrev pub bus : Bus Memory
bus = record {
  i2c_read = λ r n s. (pos 0, load_range s r n, s);
  i2c_write = λ r bs s. (pos 0, store_range s r bs);
}

abbrev pub registers : Memory → Memory
registers s = s

pub bus-IsRegisters : IsRegisters bus registers
bus-IsRegisters = record {
  read_result = λ r n s. refl;
  write_result = λ r bs s. refl;
  read_bytes = λ r n s h. refl;
  read_keeps = λ r n s. refl;
  write_stores = λ r bs s h. refl;
  write_fails = λ r bs s h. absurd (grind (arith, h));
}

abbrev pub fresh : Memory
fresh r = 0xa5

write_pin_digit_example :
    let out = aw9523b_write_pin bus 1 3 true fresh in
    bit 3 (out.1 3) ≡ (
      if is_nonneg out.0 && (reg_output_port 1 == 3) && (3 == 3)
      then (if true then 1 else 0)
      else bit 3 (fresh 3))
write_pin_digit_example =
    write_pin_digit bus registers bus-IsRegisters 1 3 true fresh 3 3 (omega arith)

write_pin_cache-read_pin_cache_example :
    let out = aw9523b_write_pin_cache bus 1 2 true aw9523b_init fresh in
    (aw9523b_read_pin_cache 1 2 out.1 ≡ (
      if (1 == 1) && (2 == 2)
      then pos (if true then 1 else 0)
      else aw9523b_read_pin_cache 1 2 aw9523b_init))
    × (out.2 ≡ (
        if is_nonneg out.0
        then store fresh
            (reg_output_port 1)
            (if 1 == 0 then out.1.port0_cached else out.1.port1_cached)
        else fresh))
write_pin_cache-read_pin_cache_example =
    write_pin_cache-read_pin_cache bus registers bus-IsRegisters 1 2 true aw9523b_init fresh 1 2
      refl refl
