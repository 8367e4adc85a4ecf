-- ===== src/Led/Frames.antt =====
-- What the patterns of PatternSnippet.h show: the values of their snippets, one behind the other, and from
-- PatternGeneric the frames of these values.
use mynd_firmware.Prelude.{
  ℕ, zero, suc, ◌+◌, ◌-◌, ◌%◌, ◌≡◌, ◌<◌, ◌≤◌, refl, sym, ap, ◌∙◌, List, [], ◌∷◌, ◌++◌, Bool, true,
  false, map, append_assoc, length, length-append, get_or, replicate, get_or-append_left,
  get_or-append_right, if◌then◌else◌, ltb, leb, Bool-cases, inl, inr, arith,
}
use mathlib.Core.Path.{subst}
use mynd_firmware.Prelude.Words.{u16_mod}
use mynd_firmware.Led.Pattern.{
  PatternSnippet, pattern_fn, pattern_const, snippet_steps, snippet_at, SnippetPattern, at_from,
  pattern_at, pattern_steps, Generic, generic, step_generic, fill_masked, LedPattern, step, reset,
}
use mynd_firmware.Led.Shows.{PlaysTo, Plays}

-- The values of a snippet and of a pattern.
abbrev pub snippet_values : PatternSnippet → List ℕ
snippet_values (pattern_fn lookup_table) = lookup_table
snippet_values (pattern_const value steps) = replicate steps value

abbrev pub values : SnippetPattern → List ℕ
values [] = []
values (s ∷ snippets) = snippet_values s ++ values snippets

length-replicate : (n v : ℕ) → length (replicate n v) ≡ n
length-replicate zero v = refl
length-replicate (suc n) v = omega (arith, length-replicate n v)

get_or-replicate : (n v i : ℕ) → i < n → get_or (replicate n v) i 0 ≡ v
get_or-replicate zero v i h = absurd (omega arith)
get_or-replicate (suc n) v zero h = refl
get_or-replicate (suc n) v (suc i) h = get_or-replicate n v i (omega arith)

length-snippet_values : (s : PatternSnippet) → length (snippet_values s) ≡ snippet_steps s
unfolding snippet_steps
length-snippet_values (pattern_fn lookup_table) = refl
length-snippet_values (pattern_const value steps) = length-replicate steps value

snippet_at-eq :
    (s : PatternSnippet) (i : ℕ)
    → i < snippet_steps s
    → snippet_at s i ≡ get_or (snippet_values s) i 0
unfolding snippet_at snippet_steps
snippet_at-eq (pattern_fn lookup_table) i h = ground arith
snippet_at-eq (pattern_const value steps) i h = sym (get_or-replicate steps value i h)

-- The steps of a pattern are the number of its values.
pub length-values : (p : SnippetPattern) → length (values p) ≡ pattern_steps p
unfolding pattern_steps
length-values [] = refl
length-values (s ∷ p) =
    length-append (snippet_values s) (values p)
    ∙ ap (λ n. n + length (values p)) (length-snippet_values s)
    ∙ ap (λ n. snippet_steps s + n) (length-values p)

at_from_first :
    (s : PatternSnippet) (p : SnippetPattern) (steps i : ℕ)
    → i < snippet_steps s
    → at_from steps (s ∷ p) (steps + i) ≡ snippet_at s i
unfolding at_from
at_from_first s p steps i h =
    let same : steps + i - steps ≡ i = omega arith in ground (arith, ap (snippet_at s) same)

at_from_rest :
    (s : PatternSnippet) (p : SnippetPattern) (steps i : ℕ)
    → snippet_steps s ≤ i
    → at_from steps (s ∷ p) (steps + i) ≡ at_from (steps + snippet_steps s) p (steps + i)
unfolding at_from
at_from_rest s p steps i h = ground arith

at_from_none : (steps i : ℕ) → at_from steps [] (steps + i) ≡ 0
unfolding at_from
at_from_none steps i = refl

at_from-behind :
    (p : SnippetPattern) (steps i : ℕ) → at_from steps p (steps + i) ≡ get_or (values p) i 0
at_from-behind [] steps i = at_from_none steps i
at_from-behind (s ∷ p) steps i = elim (Bool-cases (ltb i (snippet_steps s))) [
  | inl early ↦
      (let h : i < snippet_steps s = ground (arith, early) in
        at_from_first s p steps i h
        ∙ snippet_at-eq s i h
        ∙ sym (
            get_or-append_left (snippet_values s) (values p) i 0
              (omega (arith, h, length-snippet_values s))))
  | inr late ↦
      (let h : snippet_steps s ≤ i = ground (arith, late) in
        let j = i - snippet_steps s in
        let same : steps + i ≡ steps + snippet_steps s + j = omega (arith, h) in
        let same' : length (snippet_values s) + j ≡ i = omega (arith, h, length-snippet_values s) in
        at_from_rest s p steps i h
        ∙ ap (at_from (steps + snippet_steps s) p) same
        ∙ at_from-behind p (steps + snippet_steps s) j
        ∙ sym (get_or-append_right (snippet_values s) (values p) j 0)
        ∙ ap (λ k. get_or (snippet_values s ++ values p) k 0) same')
]

-- A pattern of snippets is the list of their values: the value at an index is the one of the list, and 0 behind
-- its end.
pub pattern_at-values : (p : SnippetPattern) (i : ℕ) → pattern_at p i ≡ get_or (values p) i 0
unfolding pattern_at
pattern_at-values p i =
    let same : 0 + i ≡ i = omega arith in ap (at_from 0 p) (sym same) ∙ at_from-behind p 0 i

-- The frame of a value on dark diodes.
abbrev pub frame : ℕ → ℕ → ℕ → List ℕ
frame led_mask n value = fill_masked led_mask 0 value (replicate n 0)

length-fill_masked :
    (led_mask led value : ℕ) (leds : List ℕ)
    → length (fill_masked led_mask led value leds) ≡ length leds
unfolding fill_masked
length-fill_masked led_mask led value [] = refl
length-fill_masked led_mask led value (x ∷ leds) =
    ap suc (length-fill_masked led_mask (suc led) value leds)

-- A generic pattern at an index.
abbrev pub at_index : Generic → ℕ → LedPattern
at_index g index = generic (record g { pattern_index = index })

value_behind : (pre vs : List ℕ) (v : ℕ) → get_or (pre ++ (v ∷ vs)) (length pre) 0 ≡ v
value_behind [] vs v = refl
value_behind (x ∷ pre) vs v = value_behind pre vs v

-- Is the value before these the last?
abbrev is_last : List ℕ → Bool
is_last [] = true
is_last (v ∷ vs) = false

last_value : (n : ℕ) (vs : List ℕ) → leb (n + suc (length vs)) (suc n) ≡ is_last vs
last_value n [] = ground arith
last_value n (v ∷ vs) = ground arith

-- One step of a pattern of which some values are left.
step_value :
    (g : Generic) (n v : ℕ) (pre vs : List ℕ)
    → values g.p ≡ pre ++ (v ∷ vs)
    → length (values g.p) < u16_mod
    → step (at_index g (length pre)) (replicate n 0) ≡ record {
      finished = is_last vs;
      leds = frame g.led_mask n v;
      object = at_index g (if is_last vs then 0 else suc (length pre));
    }
unfolding step step_generic
step_value g n v pre vs e small =
    let count : length (values g.p) ≡ length pre + suc (length vs) =
      ap length e ∙ length-append pre (v ∷ vs) in
    let total : pattern_steps g.p ≡ length pre + suc (length vs) =
      sym (length-values g.p) ∙ count in
    let next : (length pre + 1) % u16_mod ≡ suc (length pre) = omega (arith, count, small) in
    let value : pattern_at g.p (length pre) ≡ v =
      pattern_at-values g.p (length pre)
      ∙ ap (λ l. get_or l (length pre) 0) e
      ∙ value_behind pre vs v in
    let ends = ap (λ k. leb k (suc (length pre))) total ∙ last_value (length pre) vs in
    rw (next) (rw (value) (rw (ends) refl))

-- A pattern of which some values are left plays their frames.
values_play :
    (g : Generic) (n v : ℕ) (pre vs : List ℕ)
    → values g.p ≡ pre ++ (v ∷ vs)
    → length (values g.p) < u16_mod
    → PlaysTo n (at_index g 0) (at_index g (length pre)) (map (frame g.led_mask n) (v ∷ vs))
values_play g n v pre [] e small = (
  length-fill_masked g.led_mask 0 v (replicate n 0) ∙ length-replicate n 0,
  step_value g n v pre [] e small,
)
values_play g n v pre (w ∷ vs) e small = (
  length-fill_masked g.led_mask 0 v (replicate n 0) ∙ length-replicate n 0,
  (
    at_index g (suc (length pre)),
    step_value g n v pre (w ∷ vs) e small,
    subst (λ k. PlaysTo n (at_index g 0) (at_index g k) (map (frame g.led_mask n) (w ∷ vs)))
        (length-append pre (v ∷ []) ∙ omega arith)
        (values_play g n w (pre ++ (v ∷ [])) vs (e ∙ sym (append_assoc pre (v ∷ []) (w ∷ vs)))
          small),
  ),
)

-- From its beginning, a generic pattern whose snippets have between 1 and 65535 steps shows the values of its
-- snippets, one behind the other, on the diodes of its mask, is finished with the last of them, and is at its
-- beginning again.
pub Generic-Plays :
    (g : Generic) (n v : ℕ) (vs : List ℕ)
    → values g.p ≡ v ∷ vs
    → length (values g.p) < u16_mod
    → Plays n (generic g) (map (frame g.led_mask n) (values g.p))
unfolding reset
Generic-Plays g n v vs e small =
    subst (λ l. PlaysTo n (at_index g 0) (at_index g 0) (map (frame g.led_mask n) l)) (sym e)
      (values_play g n v [] vs e small)
