-- ===== src/Led/Resets.antt =====
-- The resets of the three patterns of the engine of IndicationEngine.h, whatever pointers are the same.
use mynd_firmware.Prelude.{ℕ, ◌≡◌, refl, ◌∙◌, none, some, arith}
use mynd_firmware.Led.Pattern.{LedPattern, reset, generic, generic_rgb, double_blink}
use mynd_firmware.Led.Engine.{Pointer, put, reset_at}

-- The patterns behind the three resets.
abbrev pub memory : Pointer → Pointer → Pointer → (ℕ → LedPattern) → ℕ → LedPattern
memory pre p post patterns = reset_at post (reset_at p (reset_at pre patterns))

reset-reset : (o : LedPattern) → reset (reset o) ≡ reset o
unfolding reset
reset-reset (generic g) = refl
reset-reset (generic_rgb g) = refl
reset-reset (double_blink b) = refl

reset_at_hit : (m : ℕ → LedPattern) (a : ℕ) → reset_at (some a) m a ≡ reset (m a)
unfolding reset_at put
reset_at_hit m a = ground arith

reset_at_keeps :
    (q : Pointer) (m : ℕ → LedPattern) (b : ℕ) (o : LedPattern)
    → m b ≡ reset o
    → reset_at q m b ≡ reset o
unfolding reset_at put
reset_at_keeps none m b o h = h
reset_at_keeps (some a) m b o h = ground (arith, reset-reset o)

reset_at_pending :
    (q : Pointer) (m : ℕ → LedPattern) (b : ℕ) (o : LedPattern)
    → reset (m b) ≡ reset o
    → reset (reset_at q m b) ≡ reset o
unfolding reset_at put
reset_at_pending none m b o h = h
reset_at_pending (some a) m b o h = ground (arith, reset-reset o)

-- Every pattern of the engine is at its beginning, whatever pointers are the same.
pub memory_at_pre :
    (p post : Pointer) (patterns : ℕ → LedPattern) (a : ℕ)
    → memory (some a) p post patterns a ≡ reset (patterns a)
memory_at_pre p post patterns a =
    reset_at_keeps post _ a _ (reset_at_keeps p _ a _ (reset_at_hit patterns a))

pub memory_at_core :
    (pre post : Pointer) (patterns : ℕ → LedPattern) (a : ℕ)
    → memory pre (some a) post patterns a ≡ reset (patterns a)
memory_at_core pre post patterns a =
    reset_at_keeps post _ a _
      (reset_at_hit (reset_at pre patterns) a ∙ reset_at_pending pre patterns a _ refl)

pub memory_at_post :
    (pre p : Pointer) (patterns : ℕ → LedPattern) (a : ℕ)
    → memory pre p (some a) patterns a ≡ reset (patterns a)
memory_at_post pre p patterns a =
    reset_at_hit (reset_at p (reset_at pre patterns)) a
    ∙ reset_at_pending p _ a _ (reset_at_pending pre patterns a _ refl)
