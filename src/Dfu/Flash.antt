-- ===== src/Dfu/Flash.antt =====
-- The memory that the calls of t_boot_dfu.c into the targets leave.
use mynd_firmware.Prelude.{
  ℕ, suc, ◌+◌, ◌*◌, ◌≤◌, ◌≡◌, ◌≢◌, ◌⊎◌, inl, inr, refl, List, [], ◌∷◌, arith, ltb, ◌==◌,
  if◌then◌else◌, length, Bool-cases,
}
use mynd_firmware.Prelude.Memory.{
  Memory, store, load_range, store_range, store_range_below, load_range_eq,
}
use mynd_firmware.Dfu.Types.{
  target_init, target_prepare, target_write, target_verify, update_start, update_successful,
  update_error, update_progress, update_component_done, Log,
}
use native.Mathlib.Nat.{mul-le-mul_left}

-- The memory of a component's target behind the calls, from what it held before them.
unfoldable pub flash_of : ℕ → Memory → Log → Memory
flash_of id m [] = m
flash_of id m (target_write component payload offset ∷ log) =
    if component == id then store_range (flash_of id m log) offset payload else flash_of id m log
flash_of id m (target_init component ∷ log) = flash_of id m log
flash_of id m (target_prepare component size crc ∷ log) = flash_of id m log
flash_of id m (target_verify component ∷ log) = flash_of id m log
flash_of id m (update_start n ∷ log) = flash_of id m log
flash_of id m (update_successful ∷ log) = flash_of id m log
flash_of id m (update_error component code ∷ log) = flash_of id m log
flash_of id m (update_progress component progress ∷ log) = flash_of id m log
flash_of id m (update_component_done component ∷ log) = flash_of id m log

store_range_above :
    (m : Memory) (i : ℕ) (xs : List ℕ) (j : ℕ) → i + length xs ≤ j → store_range m i xs j ≡ m j
unfolding store_range
store_range_above m i [] j h = refl
store_range_above m i (x ∷ xs) j h = ground (arith, store_range_above (store m i x) (suc i) xs j, h)

-- Writing one range leaves a range apart from it.
pub store_range_apart :
    (m : Memory) (i : ℕ) (xs : List ℕ) (j n : ℕ)
    → (j + n ≤ i) ⊎ (i + length xs ≤ j)
    → load_range (store_range m i xs) j n ≡ load_range m j n
store_range_apart m i xs j n (inl h) =
    load_range_eq (store_range m i xs) m j n (λ k p q. store_range_below m i xs k (omega arith))
store_range_apart m i xs j n (inr h) =
    load_range_eq (store_range m i xs) m j n (λ k p q. store_range_above m i xs k (omega arith))

times_suc : (c a : ℕ) → c * suc a ≡ c * a + c
times_suc c a = omega arith

-- Pieces of `c` bytes at the most do not overlap.
pub pieces_apart :
    (c a b n n' : ℕ) → a ≢ b → n ≤ c → n' ≤ c → (c * a + n ≤ c * b) ⊎ (c * b + n' ≤ c * a)
pieces_apart c a b n n' ne h h' = elim (Bool-cases (ltb a b)) [
  | inl lt ↦
      inl (
        omega (arith, h, mul-le-mul_left {m = suc a} {n = b} c (ground (arith, lt)), times_suc c a))
  | inr ge ↦ inr (
      omega
        (arith, h', mul-le-mul_left {m = suc b} {n = a} c (ground (arith, ge, ne)), times_suc c b))
]
