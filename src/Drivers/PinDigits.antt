-- ===== src/Drivers/PinDigits.antt =====
-- The digits of powers of 2 and of a byte with one pin changed.
use mynd_firmware.Prelude.{
  ℕ, zero, suc, ◌/◌, ◌%◌, ◌^◌, ◌<◌, ◌≡◌, refl, Bool, true, false, ◌==◌, ==_iff, ltb, table,
  table_entry_of, if◌then◌else◌, arith,
}
use Prim.Native.Nat.{bit_and, bit_or}
use mynd_firmware.Prelude.Bits.{bit, bit_le, bit-bit_and, bit-bit_or, complement, bit-complement}
use mynd_firmware.Drivers.Expander.{with_pin}

digit_of : Bool → ℕ
digit_of value = if value then 1 else 0

power_table : table 8 (λ j. table 8 (λ pin. bit j (2 ^ pin) == (if j == pin then 1 else 0))) ≡ true
unfolding table
power_table = refl

pub bit-power : (j pin : ℕ) → j < 8 → pin < 8 → bit j (2 ^ pin) ≡ (if j == pin then 1 else 0)
bit-power j pin h k =
    (==_iff (bit j (2 ^ pin)) (if j == pin then 1 else 0)).0
      (table_entry_of _ 8 pin k (table_entry_of _ 8 j h power_table))

ones_table : table 8 (λ j. bit j 255 == 1) ≡ true
unfolding table
ones_table = refl

pub ones : (j : ℕ) → j < 8 → bit j 255 ≡ 1
ones j h = (==_iff (bit j 255) 1).0 (table_entry_of _ 8 j h ones_table)

pub digit_eq : (j x : ℕ) → j < 8 → x / 2 ^ j % 2 ≡ bit j x
digit_eq zero x h = omega arith
digit_eq (suc zero) x h = omega arith
digit_eq (suc (suc zero)) x h = omega arith
digit_eq (suc (suc (suc zero))) x h = omega arith
digit_eq (suc (suc (suc (suc zero)))) x h = omega arith
digit_eq (suc (suc (suc (suc (suc zero))))) x h = omega arith
digit_eq (suc (suc (suc (suc (suc (suc zero)))))) x h = omega arith
digit_eq (suc (suc (suc (suc (suc (suc (suc zero))))))) x h = omega arith
digit_eq (suc (suc (suc (suc (suc (suc (suc (suc j)))))))) x h = absurd (omega (arith, h))

power_bound_table : table 8 (λ pin. ltb (2 ^ pin) 256) ≡ true
unfolding table
power_bound_table = refl

pub power_bound : (pin : ℕ) → pin < 8 → 2 ^ pin < 256
power_bound pin h =
    let e : ltb (2 ^ pin) 256 ≡ true = table_entry_of _ 8 pin h power_bound_table in
    ground (arith, e)

pub with_pin_digit :
    (cached pin : ℕ) (value : Bool) (j : ℕ)
    → pin < 8
    → j < 8
    → with_pin cached pin value / 2 ^ j % 2
      ≡ (if pin == j then (if value then 1 else 0) else cached / 2 ^ j % 2)
with_pin_digit cached pin true j h k = ground (
  arith,
  bit_le j cached,
  digit_eq j cached k,
  digit_eq j (bit_or cached (2 ^ pin)) k,
  bit-bit_or j cached (2 ^ pin),
  bit-power j pin k h,
)
with_pin_digit cached pin false j h k = ground (
  arith,
  bit_le j cached,
  digit_eq j cached k,
  digit_eq j (bit_and cached (complement (2 ^ pin))) k,
  bit-bit_and j cached (complement (2 ^ pin)),
  bit-complement j (2 ^ pin) k (power_bound pin h),
  bit-power j pin k h,
)
