-- ===== src/Prelude/Words.antt =====
-- Machine words as native numbers, the wrap-around written out.
use Prim.Native.Nat.{ℕ, ◌+◌, ◌-◌, ◌%◌, ◌^◌, ◌<◌}
use mathlib.Core.Path.{◌≡◌}
use native.Mathlib.Omega.{arith}
use mynd_firmware.Prelude.Tests.{ltb, if◌then◌else◌}
use mynd_firmware.Prelude.Int.{ℤ, pos, negsuc}

abbrev pub IsByte : ℕ → Type 0
IsByte b = b < 256

abbrev pub u8_mod : ℕ
u8_mod = 2 ^ 8

abbrev pub u16_mod : ℕ
u16_mod = 2 ^ 16

-- `uint32_t` and, on the Cortex-M0 of the speaker, `size_t`
abbrev pub u32_mod : ℕ
u32_mod = 2 ^ 32

abbrev pub add32 : ℕ → ℕ → ℕ
add32 a b = (a + b) % u32_mod

abbrev pub sub32 : ℕ → ℕ → ℕ
sub32 a b = (a + u32_mod - b) % u32_mod

-- `get_ms_since` of button_handler.c and actionslink_utils.c: the branch on the tick's overflow.
unfoldable pub get_ms_since : ℕ → ℕ → ℕ
get_ms_since now tick =
    if ltb now tick then add32 (add32 (u32_mod - 1 - tick) now) 1 else now - tick

-- For 32-bit ticks, both branches of get_ms_since are the one subtraction modulo 2 ^ 32.
pub get_ms_since-eq-sub32 :
    (now tick : ℕ) → now < u32_mod → tick < u32_mod → get_ms_since now tick ≡ sub32 now tick
unfolding get_ms_since
get_ms_since-eq-sub32 now tick h k = ground arith

-- A conversion to int16_t keeps the low 16 bits.
abbrev of_int16 : ℕ → ℤ
of_int16 bits = if ltb bits 32768 then pos bits else negsuc (65535 - bits)

unfoldable pub to_int16 : ℤ → ℤ
to_int16 (pos n) = of_int16 (n % 65536)
to_int16 (negsuc n) = of_int16 (65535 - n % 65536)
