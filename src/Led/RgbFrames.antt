-- ===== src/Led/RgbFrames.antt =====
-- What PatternGenericRgb of leds/pattern/generic_rgb shows on the three diodes of the speaker.
use mynd_firmware.Prelude.{
  ℕ, zero, suc, ◌+◌, ◌%◌, ◌≡◌, ◌<◌, refl, ◌∙◌, List, [], ◌∷◌, Bool, true, false, length, get_or,
  set, replicate, if◌then◌else◌, leb, arith,
}
use mynd_firmware.Prelude.Words.{u16_mod}
use mynd_firmware.Led.Pattern.{
  SnippetPattern, pattern_at, GenericRgb, generic_rgb, step_generic_rgb, masked, set_masked,
  LedPattern, step, reset,
}
use mynd_firmware.Led.Shows.{PlaysTo, Plays}
use mynd_firmware.Led.Frames.{values, length-values, pattern_at-values}

-- The value of a pattern at an index, if the mask has the diode.
abbrev pub colour : GenericRgb → SnippetPattern → ℕ → ℕ → ℕ
colour g p led i = if masked g.led_mask led then get_or (values p) i 0 else 0

-- The frame at an index, with a value for each colour.
abbrev pub rgb_frame : GenericRgb → ℕ → List ℕ
rgb_frame g i = colour g g.p_r 0 i ∷ colour g g.p_g 1 i ∷ colour g g.p_b 2 i ∷ []

-- A number of frames from an index on.
abbrev pub rgb_frames : GenericRgb → ℕ → ℕ → List (List ℕ)
rgb_frames g i zero = []
rgb_frames g i (suc left) = rgb_frame g i ∷ rgb_frames g (suc i) left

at_rgb : GenericRgb → ℕ → LedPattern
at_rgb g i = generic_rgb (record g { pattern_index = i })

painted :
    (r g b : Bool) (x y z : ℕ)
    → (if b
        then set
            (if g
              then set (if r then x ∷ 0 ∷ 0 ∷ [] else 0 ∷ 0 ∷ 0 ∷ []) 1 y
              else if r
              then x ∷ 0 ∷ 0 ∷ []
              else 0 ∷ 0 ∷ 0 ∷ [])
            2
            z
        else if g
        then set (if r then x ∷ 0 ∷ 0 ∷ [] else 0 ∷ 0 ∷ 0 ∷ []) 1 y
        else if r
        then x ∷ 0 ∷ 0 ∷ []
        else 0 ∷ 0 ∷ 0 ∷ [])
      ≡ (if r then x else 0) ∷ (if g then y else 0) ∷ (if b then z else 0) ∷ []
painted true true true x y z = refl
painted true true false x y z = refl
painted true false true x y z = refl
painted true false false x y z = refl
painted false true true x y z = refl
painted false true false x y z = refl
painted false false true x y z = refl
painted false false false x y z = refl

frame_of :
    (g : GenericRgb) (i : ℕ)
    → set_masked g.led_mask 2 (pattern_at g.p_b i) (
        set_masked g.led_mask 1
          (pattern_at g.p_g i)
          (set_masked g.led_mask 0 (pattern_at g.p_r i) (replicate 3 0)))
      ≡ rgb_frame g i
frame_of g i =
    rw (pattern_at-values g.p_r i, pattern_at-values g.p_g i, pattern_at-values g.p_b i)
      (painted (masked g.led_mask 0) (masked g.led_mask 1) (masked g.led_mask 2)
        (get_or (values g.p_r) i 0) (get_or (values g.p_g) i 0) (get_or (values g.p_b) i 0))

-- One step at an index.
step_rgb :
    (g : GenericRgb) (i : ℕ)
    → suc i < u16_mod
    → step (at_rgb g i) (replicate 3 0) ≡ record {
      finished = leb (length (values g.p_r)) (suc i);
      leds = rgb_frame g i;
      object = at_rgb g (if leb (length (values g.p_r)) (suc i) then 0 else suc i);
    }
unfolding at_rgb step step_generic_rgb
step_rgb g i small =
    let next : (i + 1) % u16_mod ≡ suc i = omega (arith, small) in
    rw (next) (rw (frame_of g i) (rw (length-values g.p_r) refl))

frames_play :
    (g : GenericRgb) (i left : ℕ)
    → i + suc left ≡ length (values g.p_r)
    → length (values g.p_r) < u16_mod
    → PlaysTo 3 (at_rgb g 0) (at_rgb g i) (rgb_frames g i (suc left))
frames_play g i zero whole small =
    let ends : leb (length (values g.p_r)) (suc i) ≡ true = ground (arith, whole) in
    (refl, step_rgb g i (omega (arith, whole, small)) ∙ rw (ends) refl)
frames_play g i (suc left) whole small =
    let more : leb (length (values g.p_r)) (suc i) ≡ false = ground (arith, whole) in
    (
      refl,
      (
        at_rgb g (suc i),
        step_rgb g i (omega (arith, whole, small)) ∙ rw (more) refl,
        frames_play g (suc i) left (omega (arith, whole)) small,
      ),
    )

all_play :
    (g : GenericRgb) (n : ℕ)
    → n ≡ length (values g.p_r)
    → 0 < n
    → n < u16_mod
    → PlaysTo 3 (at_rgb g 0) (at_rgb g 0) (rgb_frames g 0 n)
all_play g zero whole positive small = absurd (omega arith)
all_play g (suc left) whole positive small =
    frames_play g 0 left (omega (arith, whole)) (omega (arith, whole, small))

-- From its beginning, an RGB pattern whose red snippets have between 1 and 65535 steps shows, on three diodes, for
-- each of the red steps the values of the three colours at its index, 0 behind the end of a colour, on the diodes
-- of its mask and 0 on the others; it is finished with the last of them, and is at its beginning again.
pub GenericRgb-Plays :
    (g : GenericRgb)
    → 0 < length (values g.p_r)
    → length (values g.p_r) < u16_mod
    → Plays 3 (generic_rgb g) (rgb_frames g 0 (length (values g.p_r)))
unfolding reset at_rgb
GenericRgb-Plays g positive small = all_play g (length (values g.p_r)) refl positive small
