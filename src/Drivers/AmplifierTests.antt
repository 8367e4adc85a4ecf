-- ===== src/Drivers/AmplifierTests.antt =====
-- A chip with registers in books and pages, on a bus that never fails, and the amplifiers' drivers over it.
use mynd_firmware.Prelude.{
  ℕ, ◌+◌, ◌-◌, ◌≡◌, refl, true, false, some, List, [], ◌∷◌, ◌++◌, get_or, ◌&&◌, ◌==◌, leb, ltb,
  if◌then◌else◌, arith,
}
use mynd_firmware.Prelude.Memory.{Memory, store_range}
use mynd_firmware.Prelude.Int.{ℤ, pos}
use mynd_firmware.Drivers.Bus.{Bus, NeverFails}
use mynd_firmware.Drivers.Volume.{tasxxxx_volume_get_data_for_db}
use mynd_firmware.Drivers.Tas.{load_configuration}
use mynd_firmware.Drivers.Commands.{Command, switch, delay, burst, single, execute_all, encode_all}
use mynd_firmware.Drivers.Loading.{load_configuration-execute_all, load_configuration_terminates}
use mynd_firmware.Drivers.Paged.{IsPaged, ChangesDigits}
use mynd_firmware.Drivers.Controls.{mute, run_control, tas5825p, set_volume}
use mynd_firmware.Drivers.Amplifiers

record Chip : Type 0 where
  book : ℕ
  page : ℕ
  registers : ℕ → ℕ → Memory

abbrev book_of : Chip → ℕ
book_of s = s.book

abbrev page_of : Chip → ℕ
page_of s = s.page

abbrev registers_of : Chip → ℕ → ℕ → Memory
registers_of s = s.registers

abbrev written : ℕ → List ℕ → Chip → Chip
written r bytes s =
    if r == 0
    then record s { page = get_or bytes 0 0 }
    else if r == 0x7f
    then (if s.page == 0 then record s { book = get_or bytes 0 0 } else s)
    else record s {
      registers = λ b p a.
          if (b == s.book) && (p == s.page)
          then store_range (s.registers b p) r bytes a
          else s.registers b p a;
    }

abbrev bus : Bus Chip
bus = record {
  i2c_read = λ r n s. (pos 0, s.registers s.book s.page r ∷ [], s);
  i2c_write = λ r bytes s. (pos 0, written r bytes s);
}

bus-IsPaged : IsPaged bus book_of page_of registers_of
bus-IsPaged = record {
  write_page = λ v s h. (refl, refl, refl);
  write_book = λ v s e h. ground (arith, e);
  write_registers = λ r bytes s b p a low high fits h.
      (let e : ((r == 0) ≡ false) × ((r == 0x7f) ≡ false) =
          (ground (arith, low), ground (arith, high)) in
        rw (e.0, e.1) (refl, refl, refl));
  read_register = λ r s low high h. (refl, refl, refl, refl);
}

abbrev fresh : Chip
fresh = record { book = 3; page = 5; registers = λ b p a. 0x11 }

abbrev commands : List Command
commands = switch 1 ∷ single 0 0 ∷ burst 0x14 (1 ∷ 2 ∷ 3 ∷ 4 ∷ []) ∷ delay 5 ∷ single 3 2 ∷ []

abbrev config : Memory
config i = get_or (encode_all commands) i 0

load_configuration-execute_all_example :
    load_configuration bus (λ ms s. s) config 8 fresh
    ≡ some (execute_all bus (λ ms s. s) commands fresh)
load_configuration-execute_all_example =
    load_configuration-execute_all bus (λ ms s. s) config 8 commands fresh
      (tt, (omega arith, ((omega arith, refl), (tt, (omega arith, tt)))))
      (
        refl,
        (
          refl,
          (
            refl,
            (
              refl,
              (
                refl,
                (
                  refl,
                  (
                    refl,
                    (refl, (refl, (refl, (refl, (refl, (refl, (refl, (refl, (refl, tt))))))))),
                  ),
                ),
              ),
            ),
          ),
        ),
      )
      refl

load_configuration_terminates_example :
    (r : ℤ × Chip) × (load_configuration bus (λ ms s. s) (λ i. 253) 9 fresh ≡ some r)
load_configuration_terminates_example =
    load_configuration_terminates bus (λ ms s. s) (λ i. 253) 9 fresh

bus-NeverFails : NeverFails bus
bus-NeverFails = record { reads = λ r n s. refl; writes = λ r bytes s. refl }

run_control-ChangesDigits_example :
    ((run_control bus (mute true) fresh).0 ≡ pos 0)
    × ChangesDigits bus book_of page_of registers_of bus-IsPaged 0x03 0x08 0x08 fresh
        (run_control bus (mute true) fresh).1
        0
        0
        3
        3
run_control-ChangesDigits_example =
    Amplifiers.run_control-ChangesDigits bus book_of page_of registers_of bus-IsPaged (mute true)
      fresh 0 0 3 3 bus-NeverFails (omega arith)

set_volume-registers_example :
    let gains = tasxxxx_volume_get_data_for_db (pos 0) in
    ((set_volume bus tas5825p (pos 0) fresh).0 ≡ pos 0)
    × ((set_volume bus tas5825p (pos 0) fresh).1.registers 0x8c 0x0b 0x0d ≡ (
        if (0x8c == 0x8c) && (0x0b == 0x0b) && leb 0x0c 0x0d && ltb 0x0d (0x0c + 8)
        then get_or (gains ++ gains) (0x0d - 0x0c) 0
        else fresh.registers 0x8c 0x0b 0x0d))
set_volume-registers_example =
    Amplifiers.set_volume-registers bus book_of page_of registers_of bus-IsPaged tas5825p (pos 0)
      fresh 0x8c 0x0b 0x0d bus-NeverFails
