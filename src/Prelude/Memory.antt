-- ===== src/Prelude/Memory.antt =====
-- A C buffer as a function from offsets to bytes. What lies past the end of an array is part of the
-- function too: a read out of bounds gives whatever stands there, and bounds are theorems.
use mathlib.Core.List.{List, [], ◌∷◌, ◌++◌}
use Prim.Native.Nat.{ℕ, zero, suc, ◌+◌, ◌-◌, ◌*◌, ◌≤◌, ◌<◌}
use mathlib.Core.Bool.{◌&&◌}
use mathlib.Core.Logic.{◌⊎◌, inl, inr}
use mathlib.Core.Path.{◌≡◌, refl, ap, ap₂, ◌∙◌}
use native.Mathlib.Omega.{arith}
use mynd_firmware.Prelude.Tests.{◌==◌, ltb, leb, if◌then◌else◌}
use mynd_firmware.Prelude.Lists.{length, get_or, All}

abbrev pub Memory : Type 0
Memory = ℕ → ℕ

-- `p[i] = v`
abbrev pub store : Memory → ℕ → ℕ → Memory
store m i v j = if i == j then v else m j

-- the `n` bytes from offset `i` on
unfoldable pub load_range : Memory → ℕ → ℕ → List ℕ
load_range m i zero = []
load_range m i (suc n) = m i ∷ load_range m (suc i) n

-- `memcpy(&p[i], xs, length xs)`
unfoldable pub store_range : Memory → ℕ → List ℕ → Memory
store_range m i [] = m
store_range m i (x ∷ xs) = store_range (store m i x) (suc i) xs

pub length-load_range : (m : Memory) (i n : ℕ) → length (load_range m i n) ≡ n
unfolding load_range
length-load_range m i zero = refl
length-load_range m i (suc n) = ap suc (length-load_range m (suc i) n)

-- A range is read as its bytes are: only the offsets of the range count.
pub load_range_eq :
    (m m' : Memory) (i n : ℕ)
    → ((j : ℕ) → i ≤ j → j < i + n → m j ≡ m' j)
    → load_range m i n ≡ load_range m' i n
unfolding load_range
load_range_eq m m' i zero h = refl
load_range_eq m m' i (suc n) h =
    ap₂ ◌∷◌ (h i (omega arith) (omega arith))
      (load_range_eq m m' (suc i) n (λ j p q. h j (omega arith) (omega arith)))

pub load_range-append :
    (m : Memory) (i a b : ℕ) → load_range m i (a + b) ≡ load_range m i a ++ load_range m (i + a) b
unfolding load_range
load_range-append m i zero b = let e : (0 + b ≡ b) × (i + 0 ≡ i) = omega arith in rw (e.0, e.1) refl
load_range-append m i (suc a) b =
    let e : (suc a + b ≡ suc (a + b)) × (i + suc a ≡ suc i + a) = omega arith in
    rw (e.0, e.1) (ap (λ l. m i ∷ l) (load_range-append m (suc i) a b))

pub store_range_below :
    (m : Memory) (i : ℕ) (xs : List ℕ) (j : ℕ) → j < i → store_range m i xs j ≡ m j
unfolding store_range
store_range_below m i [] j h = refl
store_range_below m i (x ∷ xs) j h = ground (arith, store_range_below (store m i x) (suc i) xs j)

pub store_range_behind :
    (m : Memory) (i : ℕ) (xs : List ℕ) (j : ℕ) → i + length xs ≤ j → store_range m i xs j ≡ m j
unfolding store_range
store_range_behind m i [] j h = refl
store_range_behind m i (x ∷ xs) j h =
    ground (arith, h, store_range_behind (store m i x) (suc i) xs j)

pub store_range_at :
    (m : Memory) (i : ℕ) (xs : List ℕ) (j d : ℕ)
    → j < length xs
    → store_range m i xs (i + j) ≡ get_or xs j d
unfolding store_range
store_range_at m i [] j d h = absurd (omega (arith, h))
store_range_at m i (x ∷ xs) zero d h =
    let e : i + 0 ≡ i = omega arith in
    rw (e) (ground (arith, store_range_below (store m i x) (suc i) xs i))
store_range_at m i (x ∷ xs) (suc j) d h =
    let e : i + suc j ≡ suc i + j = omega arith in
    rw (e) (store_range_at (store m i x) (suc i) xs j d (omega (arith, h)))

order : (i n j : ℕ) → (j < i) ⊎ (((i ≤ j) × (j < i + n)) ⊎ (i + n ≤ j))
order i n j = omega arith

-- Every byte after a store of a range.
pub store_range-eq :
    (m : Memory) (i : ℕ) (xs : List ℕ) (j : ℕ)
    → store_range m i xs j ≡ (if leb i j && ltb j (i + length xs) then get_or xs (j - i) 0 else m j)
store_range-eq m i xs j = elim (order i (length xs) j) [
  | inl below ↦ ground (arith, below, store_range_below m i xs j)
  | inr (inl (low, high)) ↦
      (let e : j ≡ i + (j - i) = omega (arith, low) in
        ground (arith, low, high, ap (store_range m i xs) e, store_range_at m i xs (j - i) 0))
  | inr (inr behind) ↦ ground (arith, behind, store_range_behind m i xs j)
]

pub get_or-load_range :
    (m : Memory) (i n j d : ℕ) → j < n → get_or (load_range m i n) j d ≡ m (i + j)
unfolding load_range
get_or-load_range m i zero j d h = absurd (omega (arith, h))
get_or-load_range m i (suc n) zero d h = ap m (omega arith)
get_or-load_range m i (suc n) (suc j) d h =
    get_or-load_range m (suc i) n j d (omega (arith, h)) ∙ ap m (omega arith)

-- What was stored is read back.
pub load_range-store_range :
    (m : Memory) (i : ℕ) (xs : List ℕ) → load_range (store_range m i xs) i (length xs) ≡ xs
unfolding load_range store_range
load_range-store_range m i [] = refl
load_range-store_range m i (x ∷ xs) = ap₂ ◌∷◌ head (load_range-store_range (store m i x) (suc i) xs)
  where
    head : store_range (store m i x) (suc i) xs i ≡ x
    head = ground (arith, store_range_below (store m i x) (suc i) xs i)

pub load_range-All :
    (P : ℕ → Type 0) (m : Memory) (i n : ℕ)
    → ((j : ℕ) → i ≤ j → j < i + n → P (m j))
    → All P (load_range m i n)
unfolding load_range
load_range-All P m i zero h = tt
load_range-All P m i (suc n) h = (
  h i (omega arith) (omega arith),
  load_range-All P m (suc i) n (λ j p q. h j (omega arith) (omega arith)),
)

-- A store outside a range leaves what is read from the range.
pub load_range-store_behind :
    (m : Memory) (i v n : ℕ) → n ≤ i → load_range (store m i v) 0 n ≡ load_range m 0 n
load_range-store_behind m i v n h = load_range_eq (store m i v) m 0 n (λ j p q. ground arith)

pub load_range-store_before :
    (m : Memory) (i v j n : ℕ) → i < j → load_range (store m i v) j n ≡ load_range m j n
load_range-store_before m i v j n h = load_range_eq (store m i v) m j n (λ k p q. ground arith)

-- Little-endian fields of a packed struct.
abbrev pub load_u16 : Memory → ℕ → ℕ
load_u16 m i = m i + 256 * m (i + 1)

abbrev pub load_u32 : Memory → ℕ → ℕ
load_u32 m i = m i + 256 * m (i + 1) + 65536 * m (i + 2) + 16777216 * m (i + 3)

pub load_u16_eq :
    (m m' : Memory) (i : ℕ) → ((j : ℕ) → j < i + 2 → m j ≡ m' j) → load_u16 m i ≡ load_u16 m' i
load_u16_eq m m' i h = omega (arith, h i (omega arith), h (i + 1) (omega arith))

pub load_u32_eq :
    (m m' : Memory) (i : ℕ) → ((j : ℕ) → j < i + 4 → m j ≡ m' j) → load_u32 m i ≡ load_u32 m' i
load_u32_eq m m' i h = omega (
  arith,
  h i (omega arith),
  h (i + 1) (omega arith),
  h (i + 2) (omega arith),
  h (i + 3) (omega arith),
)
