-- ===== src/Led/Pattern.antt =====
-- PatternSnippet.h and pattern/generic, pattern/dblink and leds/pattern/generic_rgb: the snippets, the patterns
-- of snippets, and the three classes derived from `LedPattern`. A frame is the array of the diodes.
use mynd_firmware.Prelude.{
  ℕ, zero, suc, ◌+◌, ◌-◌, ◌*◌, ◌/◌, ◌%◌, ◌^◌, List, [], ◌∷◌, Bool, false, length, get_or, set,
  replicate, if◌then◌else◌, ltb, leb, ◌==◌,
}
use mynd_firmware.Prelude.Words.{u16_mod}

-- `PatternFn` over its table, and `PatternConst`.
pub data PatternSnippet : Type 0 where
  pattern_fn : List ℕ → PatternSnippet
  pattern_const : ℕ → ℕ → PatternSnippet

-- `PatternSnippet::steps`
unfoldable pub snippet_steps : PatternSnippet → ℕ
snippet_steps (pattern_fn lookup_table) = length lookup_table
snippet_steps (pattern_const value steps) = steps

-- `PatternSnippet::operator[]` at an index that is not negative
unfoldable pub snippet_at : PatternSnippet → ℕ → ℕ
snippet_at (pattern_fn lookup_table) index =
    if ltb index (length lookup_table) then get_or lookup_table index 0 else 0
snippet_at (pattern_const value steps) index = value

-- `Pattern`: its array of snippets
abbrev pub SnippetPattern : Type 0
SnippetPattern = List PatternSnippet

-- The loop of `Pattern::operator[]`, with the steps before the snippets that are left. The test of the upper
-- bound is made without `- 1`, the numbers of the source being signed there.
unfoldable pub at_from : ℕ → SnippetPattern → ℕ → ℕ
unfolding snippet_at snippet_steps
at_from steps [] index = 0
at_from steps (s ∷ snippets) index =
    let rest = at_from (steps + snippet_steps s) snippets index in
    if leb steps index
    then (if ltb index (snippet_steps s + steps) then snippet_at s (index - steps) else rest)
    else rest

-- `Pattern::operator[]`
unfoldable pub pattern_at : SnippetPattern → ℕ → ℕ
unfolding at_from
pattern_at snippets index = at_from 0 snippets index

-- `Pattern::steps`
unfoldable pub pattern_steps : SnippetPattern → ℕ
unfolding snippet_steps
pattern_steps [] = 0
pattern_steps (s ∷ snippets) = snippet_steps s + pattern_steps snippets

-- `PatternGeneric`: its template argument LED_MASK and its members
pub record Generic : Type 0 where
  pub led_mask : ℕ
  pub p : SnippetPattern
  pub pattern_index : ℕ
  pub id : ℕ

-- `PatternGenericRgb`
pub record GenericRgb : Type 0 where
  pub led_mask : ℕ
  pub p_r : SnippetPattern
  pub p_g : SnippetPattern
  pub p_b : SnippetPattern
  pub pattern_index : ℕ
  pub id : ℕ

-- `PatternDoubleBlink`, less its delay, which is never read
pub record DoubleBlink : Type 0 where
  pub p : SnippetPattern
  pub pattern_index : ℕ
  pub cur_part : ℕ
  pub id : ℕ

-- An object of a class derived from `LedPattern`.
pub data LedPattern : Type 0 where
  generic : Generic → LedPattern
  generic_rgb : GenericRgb → LedPattern
  double_blink : DoubleBlink → LedPattern

-- Is the bit of a diode in the mask?
abbrev pub masked : ℕ → ℕ → Bool
masked led_mask led = led_mask / 2 ^ led % 2 == 1

-- The loop of `PatternGeneric::step` over the diodes, from a diode on.
unfoldable pub fill_masked : ℕ → ℕ → ℕ → List ℕ → List ℕ
fill_masked led_mask led value [] = []
fill_masked led_mask led value (x ∷ leds) =
    (if masked led_mask led then value else x) ∷ fill_masked led_mask (suc led) value leds

-- `leds[led] = value` under `if constexpr (LED_MASK & ...)`
abbrev pub set_masked : ℕ → ℕ → ℕ → List ℕ → List ℕ
set_masked led_mask led value leds = if masked led_mask led then set leds led value else leds

-- The loop of `PatternDoubleBlink::step` over half of the diodes, with the rounds left.
unfoldable pub fill_half : ℕ → ℕ → ℕ → List ℕ → List ℕ
fill_half zero first value leds = leds
fill_half (suc rounds) first value leds = fill_half rounds (suc first) value (set leds first value)

-- What `step` returns: whether the pattern is finished, the diodes, and the object.
pub record Stepped : Type 0 where
  pub finished : Bool
  pub leds : List ℕ
  pub object : LedPattern

-- `PatternGeneric::step`
unfoldable pub step_generic : Generic → List ℕ → Stepped
unfolding pattern_at pattern_steps fill_masked
step_generic g leds =
    let next = (g.pattern_index + 1) % u16_mod in
    let finished = leb (pattern_steps g.p) next in
    record {
      finished = finished;
      leds = fill_masked g.led_mask 0 (pattern_at g.p g.pattern_index) leds;
      object = generic (record g { pattern_index = if finished then 0 else next });
    }

-- `PatternGenericRgb::step`
unfoldable pub step_generic_rgb : GenericRgb → List ℕ → Stepped
unfolding pattern_at pattern_steps
step_generic_rgb g leds =
    let next = (g.pattern_index + 1) % u16_mod in
    let finished = leb (pattern_steps g.p_r) next in
    let red = set_masked g.led_mask 0 (pattern_at g.p_r g.pattern_index) leds in
    let green = set_masked g.led_mask 1 (pattern_at g.p_g g.pattern_index) red in
    record {
      finished = finished;
      leds = set_masked g.led_mask 2 (pattern_at g.p_b g.pattern_index) green;
      object = generic_rgb (record g { pattern_index = if finished then 0 else next });
    }

-- `PatternDoubleBlink::step`: where the half that blinks begins
abbrev pub half_start : ℕ → ℕ → ℕ
half_start led_nums part =
    if led_nums % 2 == 0 then part * (led_nums / 2) else part * (led_nums / 2) + part * 1

unfoldable pub step_double_blink : DoubleBlink → List ℕ → Stepped
unfolding pattern_at pattern_steps fill_half
step_double_blink b leds =
    let n = length leds in
    let next = (b.pattern_index + 1) % u16_mod in
    let whole = leb (pattern_steps b.p) next in
    let other = if b.cur_part == 0 then 1 else 0 in
    record {
      finished = if whole then other == 0 else false;
      leds =
          fill_half (n / 2) (half_start n b.cur_part) (pattern_at b.p b.pattern_index)
            (replicate n 0);
      object = double_blink (record b {
        pattern_index = if whole then 0 else next;
        cur_part = if whole then other else b.cur_part;
      });
    }

-- `LedPattern::step`, by the class of the object
unfoldable pub step : LedPattern → List ℕ → Stepped
unfolding step_generic step_generic_rgb step_double_blink
step (generic g) leds = step_generic g leds
step (generic_rgb g) leds = step_generic_rgb g leds
step (double_blink b) leds = step_double_blink b leds

-- `LedPattern::reset`
unfoldable pub reset : LedPattern → LedPattern
reset (generic g) = generic (record g { pattern_index = 0 })
reset (generic_rgb g) = generic_rgb (record g { pattern_index = 0 })
reset (double_blink b) = double_blink (record b { pattern_index = 0 })

-- `LedPattern::getPatternId`
unfoldable pub get_pattern_id : LedPattern → ℕ
get_pattern_id (generic g) = g.id
get_pattern_id (generic_rgb g) = g.id
get_pattern_id (double_blink b) = b.id
