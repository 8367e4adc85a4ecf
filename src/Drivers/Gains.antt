-- ===== src/Drivers/Gains.antt =====
-- The gains that tasxxxx_volume_get_data_for_db gives: their order, and where the gain is 1.
use mynd_firmware.Prelude.{
  ℕ, zero, suc, ◌+◌, ◌-◌, ◌*◌, ◌^◌, ◌≤◌, ◌<◌, ◌≡◌, ◌↔◌, ◌⊎◌, inl, inr, refl, ap, ◌∙◌, Bool, true,
  false, List, [], length, get_or, ltb, leb, ◌==◌, ==_iff, table, table_entry_of, arith,
}
use mynd_firmware.Prelude.Int.{ℤ, pos, negsuc}
use mynd_firmware.Drivers.Volume.{
  tasxxxx_volume_table, volume_index, tasxxxx_volume_get_data_for_db,
}

-- The four bytes as a number, the most significant one first.
abbrev pub number_of : List ℕ → ℕ
number_of bytes =
    16777216 * get_or bytes 0 0
    + 65536 * get_or bytes 1 0
    + 256 * get_or bytes 2 0
    + get_or bytes 3 0

row : ℕ → ℕ
row i = number_of (get_or tasxxxx_volume_table i [])

pub gain : ℤ → ℕ
gain volume_db = number_of (tasxxxx_volume_get_data_for_db volume_db)

-- `a <= b`
abbrev pub is_at_most : ℤ → ℤ → Bool
is_at_most (pos m) (pos n) = leb m n
is_at_most (pos m) (negsuc n) = false
is_at_most (negsuc m) (pos n) = true
is_at_most (negsuc m) (negsuc n) = leb n m

volume_index_le : (a b : ℤ) → is_at_most a b ≡ true → volume_index a ≤ volume_index b
unfolding volume_index
volume_index_le (pos m) (pos n) h = ground (arith, h)
volume_index_le (pos m) (negsuc n) h = absurd (ground (arith, h))
volume_index_le (negsuc m) (pos n) h = ground arith
volume_index_le (negsuc m) (negsuc n) h = ground (arith, h)

volume_index_lt : (volume_db : ℤ) → volume_index volume_db < 112
unfolding volume_index
volume_index_lt (pos n) = ground arith
volume_index_lt (negsuc n) = ground arith

rows_ascend : table 111 (λ i. ltb (row i) (row (suc i))) ≡ true
unfolding table row
rows_ascend = refl

rows_full : table 112 (λ i. length (get_or tasxxxx_volume_table i []) == 4) ≡ true
unfolding table
rows_full = refl

trichotomy : (a b : ℕ) → (a < b) ⊎ ((a ≡ b) ⊎ (b < a))
trichotomy a b = omega arith

ltb-lt : (a b : ℕ) → ltb a b ≡ true → a < b
ltb-lt a b h = ground (arith, h)

row_lt : (i : ℕ) → i < 111 → row i < row (suc i)
row_lt i h = ltb-lt (row i) (row (suc i)) (table_entry_of _ 111 i h rows_ascend)

row_le : (i k : ℕ) → i + k < 112 → row i ≤ row (i + k)
row_le i zero h = let e : i + 0 ≡ i = omega arith in rw (e) (omega arith)
row_le i (suc k) h =
    let e : i + suc k ≡ suc (i + k) = omega arith in
    rw (e) (omega (arith, row_le i k (omega (arith, h)), row_lt (i + k) (omega (arith, h))))

-- More decibels never give less gain, and the gain of any volume has four bytes.
pub gain_monotone :
    (a b : ℤ)
    → is_at_most a b ≡ true
    → (gain a ≤ gain b) × (length (tasxxxx_volume_get_data_for_db a) ≡ 4)
unfolding gain tasxxxx_volume_get_data_for_db row
gain_monotone a b h =
    let le = volume_index_le a b h in
    let e : volume_index a + (volume_index b - volume_index a) ≡ volume_index b = omega arith in
    (
      (let r =
            row_le (volume_index a) (volume_index b - volume_index a)
              (omega (arith, le, volume_index_lt b)) in
          let f : row (volume_index a + (volume_index b - volume_index a)) ≡ row (volume_index b) =
            ap row e in
          omega (arith, r, f)),
      (==_iff (length (get_or tasxxxx_volume_table (volume_index a) [])) 4).0
          (table_entry_of _ 112 (volume_index a) (volume_index_lt a) rows_full),
    )

row_91 : row 91 ≡ 2 ^ 23
unfolding row
row_91 = refl

unity_row : (i : ℕ) → i < 112 → row i ≡ 2 ^ 23 → i ≡ 91
unity_row i h e = elim (trichotomy i 91) [
  | inl below ↦ absurd (
      let k : suc i + (91 - suc i) ≡ 91 = omega (arith, below) in
      omega (
        arith,
        e,
        row_91,
        row_lt i (omega (arith, below)),
        row_le (suc i) (91 - suc i) (omega (arith, below)),
        ap row k,
      ))
  | inr (inl same) ↦ same
  | inr (inr above) ↦ absurd (
      let k : 92 + (i - 92) ≡ i = omega (arith, above) in
      omega (
        arith,
        e,
        row_91,
        row_lt 91 (omega arith),
        row_le 92 (i - 92) (omega (arith, above, h)),
        ap row k,
      ))
]

index_of_one : (volume_db : ℤ) → volume_index volume_db ≡ 91 → volume_db ≡ pos 1
unfolding volume_index
index_of_one (pos n) h = ap pos (ground (arith, h))
index_of_one (negsuc n) h = absurd (ground (arith, h))

gain_of_one : gain (pos 1) ≡ 2 ^ 23
unfolding gain tasxxxx_volume_get_data_for_db volume_index
gain_of_one = refl

-- The gain is 1, 2 ^ 23 in the format 9.23, for 1 dB and for no other volume.
unity_gain : (volume_db : ℤ) → gain volume_db ≡ 2 ^ 23 ↔ volume_db ≡ pos 1
unfolding gain tasxxxx_volume_get_data_for_db row
unity_gain volume_db = (
  (λ e. index_of_one volume_db (unity_row (volume_index volume_db) (volume_index_lt volume_db) e)),
  (λ e. ap gain e ∙ gain_of_one),
)
