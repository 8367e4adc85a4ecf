-- ===== src/Drivers/Commands.antt =====
-- The loop of tas58…_load_configuration against the list of commands that a configuration stands for.
use mynd_firmware.Prelude.{
  ℕ, suc, ◌+◌, ◌%◌, ◌<◌, ◌≡◌, refl, ap₂, List, [], ◌∷◌, ◌++◌, Option, none, some, length,
  if◌then◌else◌, arith,
}
use mynd_firmware.Prelude.Memory.{Memory, load_range}
use mynd_firmware.Prelude.Int.{ℤ, pos, is_zero}
use mynd_firmware.Drivers.Bus.{Bus}
use mynd_firmware.Drivers.Tas.{io_error, write_bytes, write_register}

pub data Command : Type 0 where
  switch : ℕ → Command
  delay : ℕ → Command
  burst : ℕ → List ℕ → Command
  single : ℕ → ℕ → Command

-- The entries of a command, two bytes each; a burst of an even number of bytes ends in one that is not used.
abbrev pub encode : Command → List ℕ
encode (switch param) = 255 ∷ param ∷ []
encode (delay ms) = 254 ∷ ms ∷ []
encode (burst reg bytes) = 253 ∷ (length bytes + 1) ∷ reg ∷ (bytes ++ 0 ∷ [])
encode (single reg value) = reg ∷ value ∷ []

abbrev pub encode_all : List Command → List ℕ
encode_all [] = []
encode_all (c ∷ commands) = encode c ++ encode_all commands

abbrev pub IsCommand : Command → Type 0
IsCommand (switch param) = Unit
IsCommand (delay ms) = Unit
IsCommand (burst reg bytes) = (length bytes < 255) × (length bytes % 2 ≡ 0)
IsCommand (single reg value) = reg < 253

-- The bytes lie in memory from an offset on.
abbrev pub Holds : Memory → ℕ → List ℕ → Type 0
Holds m a [] = Unit
Holds m a (b ∷ bytes) = (m a ≡ b) × Holds m (suc a) bytes

pub Holds-append_left : (m : Memory) (a : ℕ) (xs ys : List ℕ) → Holds m a (xs ++ ys) → Holds m a xs
Holds-append_left m a [] ys h = tt
Holds-append_left m a (x ∷ xs) ys h = (h.0, Holds-append_left m (suc a) xs ys h.1)

pub Holds-append_right :
    (m : Memory) (a : ℕ) (xs ys : List ℕ) → Holds m a (xs ++ ys) → Holds m (a + length xs) ys
Holds-append_right m a [] ys h = let e : a + 0 ≡ a = omega arith in rw (e) h
Holds-append_right m a (x ∷ xs) ys h =
    let e : a + suc (length xs) ≡ suc a + length xs = omega arith in
    rw (e) (Holds-append_right m (suc a) xs ys h.1)

pub load_range-Holds :
    (m : Memory) (a : ℕ) (bytes : List ℕ) → Holds m a bytes → load_range m a (length bytes) ≡ bytes
unfolding load_range
load_range-Holds m a [] h = refl
load_range-Holds m a (b ∷ bytes) h = ap₂ ◌∷◌ h.0 (load_range-Holds m (suc a) bytes h.1)

module _ {S : Type 0} (bus : Bus S) (delay_fn : ℕ → S → S) where
  -- What one command does; `none` if the next one is to follow.
  unfoldable pub execute : Command → S → Option ℤ × S
  execute (switch param) s = (none, s)
  execute (delay ms) s = (none, delay_fn ms s)
  execute (burst reg bytes) s =
      let w = write_bytes bus reg bytes s in (if is_zero w.0 then none else some io_error, w.1)
  execute (single reg value) s =
      let w = write_register bus reg value s in (if is_zero w.0 then none else some io_error, w.1)

  -- The commands one after the other, up to the first that fails.
  unfoldable pub execute_all : List Command → S → ℤ × S
  execute_all [] s = (pos 0, s)
  execute_all (c ∷ commands) s =
      let out = execute c s in
      elim out.0 [ some result ↦ (result, out.1) | none ↦ execute_all commands out.1 ]
