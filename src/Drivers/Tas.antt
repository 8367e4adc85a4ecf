-- ===== src/Drivers/Tas.antt =====
-- What tas5805m.c and tas5825p.c have in common, in the same words: the access to a register, the choice of
-- book and page, and the loop over a configuration, as tas5805m.c has them.
use Prim.Native.Nat.{bit_and}
use mynd_firmware.Prelude.{
  ℕ, zero, suc, ◌+◌, ◌*◌, ◌/◌, true, false, List, [], ◌∷◌, Option, none, some, get_or, ◌==◌, leb,
  if◌then◌else◌,
}
use mynd_firmware.Prelude.Bits.{complement, modified}
use mynd_firmware.Prelude.Words.{sub32}
use mynd_firmware.Prelude.Memory.{Memory, load_range}
use mynd_firmware.Prelude.Int.{ℤ, pos, negsuc, is_zero}
use mynd_firmware.Drivers.Bus.{Bus}

-- -E_TAS…_IO and -E_TAS…_PARAM
abbrev pub io_error : ℤ
io_error = negsuc 0

abbrev pub param_error : ℤ
param_error = negsuc 1

module _ {S : Type 0} (bus : Bus S) where
  -- A write that is checked by `!= 0`.
  unfoldable pub write_bytes : ℕ → List ℕ → S → ℤ × S
  write_bytes reg bytes s =
      let w = bus.i2c_write reg bytes s in (if is_zero w.0 then pos 0 else io_error, w.1)

  unfoldable pub write_register : ℕ → ℕ → S → ℤ × S
  write_register reg value s = write_bytes reg (value ∷ []) s

  unfoldable pub read_register : ℕ → S → ℤ × List ℕ × S
  read_register reg s =
      let r = bus.i2c_read reg 1 s in (if is_zero r.0 then pos 0 else io_error, r.1, r.2)

  unfoldable pub modify_register : ℕ → ℕ → ℕ → S → ℤ × S
  modify_register reg bitmask value s =
      let r = read_register reg s in
      if bit_and (complement bitmask) value == 0
      then (if is_zero r.0
          then write_register reg (modified (get_or r.1 0 0) bitmask value) r.2
          else (io_error, r.2))
      else (param_error, s)

  unfoldable pub set_dsp_memory_to_book_and_page : ℕ → ℕ → S → ℤ × S
  set_dsp_memory_to_book_and_page book page s =
      let first = write_register 0x00 0x00 s in
      let second = write_register 0x7f book first.1 in
      if is_zero first.0
      then (if is_zero second.0 then write_register 0x00 page second.1 else (io_error, second.1))
      else (io_error, first.1)

  -- A change of a register of a book and page.
  unfoldable pub modify_in : ℕ → ℕ → ℕ → ℕ → ℕ → S → ℤ × S
  modify_in book page reg bitmask value s =
      let selected = set_dsp_memory_to_book_and_page book page s in
      if is_zero selected.0
      then modify_register reg bitmask value selected.1
      else (io_error, selected.1)

  -- The configuration is an array of pairs of bytes. One round of the loop gives the result with which the
  -- function returns, if it does, and the next index, which is below 2 ^ 31 in the source's int for arrays that
  -- fit the flash memory.
  unfoldable pub load_step : (ℕ → S → S) → Memory → ℕ → S → Option ℤ × ℕ × S
  load_step delay_fn config i s =
      let command = config (2 * i) in
      let param = config (2 * i + 1) in
      let burst =
        write_bytes (config (2 * (i + 1))) (load_range config (2 * (i + 1) + 1) (sub32 param 1))
          s in
      let single = write_register command param s in
      if command == 255
      then (none, i + 1, s)
      else if command == 254
      then (none, i + 1, delay_fn param s)
      else if command == 253
      then (if is_zero burst.0
          then (none, i + (param / 2 + 1) + 1, burst.1)
          else (some io_error, i, burst.1))
      else if is_zero single.0
      then (none, i + 1, single.1)
      else (some io_error, i, single.1)

  -- The loop, on fuel.
  unfoldable pub load_from : ℕ → (ℕ → S → S) → Memory → ℕ → ℕ → S → Option (ℤ × S)
  load_from zero delay_fn config config_length i s = none
  load_from (suc fuel) delay_fn config config_length i s =
      let round = load_step delay_fn config i s in
      elim (leb config_length i) [
        | true ↦ some (pos 0, s)
        | false ↦ elim round.0 [
          | some result ↦ some (result, round.2)
          | none ↦ load_from fuel delay_fn config config_length round.1 round.2
        ]
      ]

  -- Every round moves on, so that one round more than entries is enough.
  unfoldable pub load_configuration : (ℕ → S → S) → Memory → ℕ → S → Option (ℤ × S)
  load_configuration delay_fn config config_length s =
      load_from (suc config_length) delay_fn config config_length 0 s
