-- ===== src/Prelude/Bits.antt =====
-- The binary digits of native numbers, and what `&`, `|` and `~` of bytes make of them.
use Prim.Native.Nat.{
  ℕ, zero, suc, ◌+◌, ◌-◌, ◌*◌, ◌/◌, ◌%◌, ◌≤◌, ◌<◌, min, max, digits, bitwise, bit_and, bit_or,
  bit_and-bitwise, bit_or-bitwise,
}
use mathlib.Core.Path.{◌≡◌, refl, ap, ◌∙◌}
use mathlib.Core.Bool.{true}
use native.Mathlib.Omega.{arith}
use mynd_firmware.Prelude.Tests.{◌==◌, ==_iff, table, table_entry_of}

-- The digit of weight 2 ^ j.
abbrev pub bit : ℕ → ℕ → ℕ
bit zero n = n % 2
bit (suc j) n = bit j (n / 2)

pub bit-zero : (j : ℕ) → bit j 0 ≡ 0
bit-zero zero = refl
bit-zero (suc j) = bit-zero j

pub bit_le : (j n : ℕ) → bit j n ≤ 1
bit_le zero n = omega arith
bit_le (suc j) n = bit_le j (n / 2)

module _ (past : ℕ → ℕ) (op : ℕ → ℕ → ℕ) where
  -- Any count of digits that reaches the end of the first number gives the same.
  enough_digits : (k l x y : ℕ) → x ≤ k → x ≤ l → digits past op k x y ≡ digits past op l x y
  enough_digits zero l (suc x) y h h' = absurd (omega (arith, h))
  enough_digits k zero (suc x) y h h' = absurd (omega (arith, h'))
  enough_digits zero zero zero y h h' = refl
  enough_digits zero (suc l) zero y h h' = refl
  enough_digits (suc k) zero zero y h h' = refl
  enough_digits (suc k) (suc l) zero y h h' = refl
  enough_digits (suc k) (suc l) (suc x) y h h' =
      ap (λ (t : ℕ). t * 2 + op (suc x % 2) (y % 2))
        (enough_digits k l (suc x / 2) (y / 2) (omega (arith, h)) (omega (arith, h')))

  lowest_digit :
      ((y : ℕ) → past y ≡ past (y / 2) * 2 + op 0 (y % 2))
      → (x y : ℕ) → bitwise past op x y ≡ bitwise past op (x / 2) (y / 2) * 2 + op (x % 2) (y % 2)
  lowest_digit at_end zero y = at_end y
  lowest_digit at_end (suc x) y =
      ap (λ (t : ℕ). t * 2 + op (suc x % 2) (y % 2))
        (enough_digits x (suc x / 2) (suc x / 2) (y / 2) (omega arith) (omega arith))

and_lowest : (x y : ℕ) → bit_and x y ≡ bit_and (x / 2) (y / 2) * 2 + min (x % 2) (y % 2)
and_lowest x y = omega (
  arith,
  bit_and-bitwise x y,
  bit_and-bitwise (x / 2) (y / 2),
  lowest_digit (λ b. 0) min (λ b. omega arith) x y,
)

or_lowest : (x y : ℕ) → bit_or x y ≡ bit_or (x / 2) (y / 2) * 2 + max (x % 2) (y % 2)
or_lowest x y = omega (
  arith,
  bit_or-bitwise x y,
  bit_or-bitwise (x / 2) (y / 2),
  lowest_digit (λ b. b) max (λ b. omega arith) x y,
)

pub bit-bit_and : (j x y : ℕ) → bit j (bit_and x y) ≡ min (bit j x) (bit j y)
bit-bit_and zero x y = omega (arith, and_lowest x y)
bit-bit_and (suc j) x y =
    let e : bit_and x y / 2 ≡ bit_and (x / 2) (y / 2) = omega (arith, and_lowest x y) in
    ap (bit j) e ∙ bit-bit_and j (x / 2) (y / 2)

pub bit-bit_or : (j x y : ℕ) → bit j (bit_or x y) ≡ max (bit j x) (bit j y)
bit-bit_or zero x y = omega (arith, or_lowest x y)
bit-bit_or (suc j) x y =
    let e : bit_or x y / 2 ≡ bit_or (x / 2) (y / 2) = omega (arith, or_lowest x y) in
    ap (bit j) e ∙ bit-bit_or j (x / 2) (y / 2)

-- `~x` of a byte, cut to a byte
abbrev pub complement : ℕ → ℕ
complement x = 255 - x

byte_digits : table 8 (λ j. table 256 (λ x. bit j (complement x) == 1 - bit j x)) ≡ true
unfolding table
byte_digits = refl

pub bit-complement : (j x : ℕ) → j < 8 → x < 256 → bit j (complement x) ≡ 1 - bit j x
bit-complement j x h k =
    (==_iff (bit j (complement x)) (1 - bit j x)).0
      (table_entry_of _ 256 x k (table_entry_of _ 8 j h byte_digits))

-- `(x & ~mask) | value`
abbrev pub modified : ℕ → ℕ → ℕ → ℕ
modified x mask value = bit_or (bit_and x (complement mask)) value

-- Digit by digit: outside the mask the digit is the old one, or set by the value; inside, the value's.
pub bit-modified :
    (j x mask value : ℕ)
    → j < 8
    → mask < 256
    → bit j (modified x mask value) ≡ max (min (bit j x) (1 - bit j mask)) (bit j value)
bit-modified j x mask value h k = omega (
  arith,
  bit-bit_or j (bit_and x (complement mask)) value,
  bit-bit_and j x (complement mask),
  bit-complement j mask h k,
)
