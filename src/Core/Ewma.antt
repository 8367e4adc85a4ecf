-- ===== src/Core/Ewma.antt =====
-- core_utils/ewma.h: the exponentially weighted moving average of `EWMA<K, uint32_t>`.
use mynd_firmware.Prelude.{ℕ, ◌+◌, ◌-◌, ◌*◌, ◌/◌, ◌%◌, ◌^◌, ◌≤◌, ◌<◌, List, [], ◌∷◌, All, arith}
use mynd_firmware.Prelude.Words.{u32_mod}

-- The state behind the constructor, `EWMA(initial)`.
unfoldable pub ewma_init : ℕ → ℕ → ℕ
ewma_init k initial = (initial * 2 ^ k + u32_mod - initial) % u32_mod

-- `EWMA::half`
abbrev pub half : ℕ → ℕ
half k = 2 ^ (k - 1)

-- The state behind `EWMA::operator()`.
unfoldable pub ewma_update : ℕ → ℕ → ℕ → ℕ
ewma_update k state input = (state + input + u32_mod - (state + half k) % u32_mod / 2 ^ k) % u32_mod

-- `EWMA::get`, and the result of `EWMA::operator()` for its new state
unfoldable pub ewma_get : ℕ → ℕ → ℕ
ewma_get k state = state / 2 ^ k

-- The state behind some inputs, newest first.
unfoldable pub ewma_after : ℕ → ℕ → List ℕ → ℕ
ewma_after k state [] = state
ewma_after k state (input ∷ inputs) = ewma_update k (ewma_after k state inputs) input

-- The filter of the battery task, K = 4, between two bounds.
abbrev pub IsBetween : ℕ → ℕ → ℕ → Type 0
IsBetween lo hi state = (lo * 16 ≤ state) × (state ≤ hi * 16)

update-IsBetween :
    (lo hi state input : ℕ)
    → hi < 2 ^ 27
    → IsBetween lo hi state
    → lo ≤ input
    → input ≤ hi
    → IsBetween lo hi (ewma_update 4 state input)
unfolding ewma_update
update-IsBetween lo hi state input small between low high = omega (arith, between)

after-IsBetween :
    (lo hi state : ℕ) (inputs : List ℕ)
    → hi < 2 ^ 27
    → IsBetween lo hi state
    → All (λ (x : ℕ). (lo ≤ x) × (x ≤ hi)) inputs
    → IsBetween lo hi (ewma_after 4 state inputs)
unfolding ewma_after
after-IsBetween lo hi state [] small between inside = between
after-IsBetween lo hi state (x ∷ inputs) small between inside =
    update-IsBetween lo hi (ewma_after 4 state inputs) x small
      (after-IsBetween lo hi state inputs small between inside.1) inside.0.0 inside.0.1

-- For K = 4 and inputs between two bounds below 2 ^ 27, from a state whose value, with its fraction, lies
-- between them too, the average stays between them: nothing wraps around in the 32-bit state, which is at most
-- 16 times the upper bound.
ewma_bounds :
    (lo hi state : ℕ) (inputs : List ℕ)
    → hi < 2 ^ 27
    → lo * 16 ≤ state
    → state ≤ hi * 16
    → All (λ (x : ℕ). (lo ≤ x) × (x ≤ hi)) inputs
    → (lo ≤ ewma_get 4 (ewma_after 4 state inputs))
      × (ewma_get 4 (ewma_after 4 state inputs) ≤ hi)
      × (ewma_after 4 state inputs ≤ hi * 16)
unfolding ewma_get
ewma_bounds lo hi state inputs small low high inside =
    let between = after-IsBetween lo hi state inputs small (low, high) inside in
    omega (arith, between)
