-- ===== src/Led/Rounds.antt =====
-- Rounds of a pattern in a stage of the engine of IndicationEngine.h.
use mynd_firmware.Prelude.{
  ℕ, ◌≡◌, refl, sym, ap, ◌∙◌, List, [], ◌∷◌, ◌++◌, false, none, some, length, replicate, arith,
}
use mathlib.Core.Path.{fun_ext, subst}
use mynd_firmware.Led.Pattern.{LedPattern, Stepped, step}
use mynd_firmware.Led.Engine.{
  Engine, Stage, preload, core, afterload, State, Pointer, event_pattern_finished, put, dispatch,
  exec, step_at, step_around, step_stage, show, is_stopped,
}
use mynd_firmware.Led.Shows.{last, PlaysTo, Runs, here, then_exec}

pub put_self : (patterns : ℕ → LedPattern) (a : ℕ) → put patterns a (patterns a) ≡ patterns
unfolding put
put_self patterns a = fun_ext (λ b. ground (arith))

put-put :
    (patterns : ℕ → LedPattern) (a : ℕ) (x y : LedPattern)
    → put (put patterns a x) a y ≡ put patterns a y
unfolding put
put-put patterns a x y = fun_ext (λ b. ground arith)

put_at : (patterns : ℕ → LedPattern) (a : ℕ) (x : LedPattern) → put patterns a x a ≡ x
unfolding put
put_at patterns a x = ground arith

-- The engine in a stage, with its patterns.
abbrev pub during : (ℕ → LedPattern) → Pointer → Pointer → Pointer → Stage → State → List ℕ → Engine
during patterns pre p post stage state leds = record {
  stage = stage;
  pattern_preload = pre;
  pattern_core = p;
  pattern_afterload = post;
  latest_led_state = leds;
  state = state;
  mutex = false;
  patterns = patterns;
}

-- The pattern of a stage.
abbrev pub pointer_of : Stage → Pointer → Pointer → Pointer → Pointer
pointer_of preload pre p post = pre
pointer_of core pre p post = p
pointer_of afterload pre p post = post

-- With the pointers put in, so that the stage's one is an address.
exec-step :
    (patterns : ℕ → LedPattern) (pre p post : Pointer) (stage : Stage) (state : State)
    (leds : List ℕ) (a : ℕ) (s : Stepped)
    → pointer_of stage pre p post ≡ some a
    → is_stopped state ≡ false
    → step (patterns a) (replicate (length leds) 0) ≡ s
    → exec (during patterns pre p post stage state leds)
      ≡ some (
        s.leds,
        show s.leds s.finished (during (put patterns a s.object) pre p post stage state leds),
      )
unfolding exec step_at step_around step_stage
exec-step patterns (some b) p post preload state leds a s at running e =
    let same : b ≡ a = cc in rw (running) (rw (same) (rw (e) refl))
exec-step patterns pre (some b) post core state leds a s at running e =
    let same : b ≡ a = cc in rw (running) (rw (same) (rw (e) refl))
exec-step patterns pre p (some b) afterload state leds a s at running e =
    let same : b ≡ a = cc in rw (running) (rw (same) (rw (e) refl))
exec-step patterns none p post preload state leds a s at running e = absurd (cc)
exec-step patterns pre none post core state leds a s at running e = absurd (cc)
exec-step patterns pre p none afterload state leds a s at running e = absurd (cc)

-- The frames of a stage whose pattern plays them, up to the event that ends it.
pub stage-Runs :
    (patterns : ℕ → LedPattern) (pre p post : Pointer) (stage : Stage) (state : State) (a : ℕ)
    (object : LedPattern) (leds : List ℕ) (frames : List (List ℕ))
    → pointer_of stage pre p post ≡ some a
    → is_stopped state ≡ false
    → PlaysTo (length leds) (patterns a) object frames
    → Runs (during (put patterns a object) pre p post stage state leds) frames (
        dispatch event_pattern_finished (during patterns pre p post stage state (last frames leds)))
unfolding last show
stage-Runs patterns pre p post stage state a object leds [] at running plays = absurd plays
stage-Runs patterns pre p post stage state a object leds (x ∷ []) at running plays =
    then_exec
      (exec-step (put patterns a object) pre p post stage state leds a _ at running
        (ap (λ o. step o (replicate (length leds) 0)) (put_at patterns a object) ∙ plays.1))
      (rw (put-put patterns a object (patterns a)) (rw (put_self patterns a) (here _)))
stage-Runs patterns pre p post stage state a object leds (x ∷ y ∷ frames) at running plays =
    then_exec
      (exec-step (put patterns a object) pre p post stage state leds a _ at running
        (ap (λ o. step o (replicate (length leds) 0)) (put_at patterns a object) ∙ plays.1.1))
      (rw (put-put patterns a object plays.1.0) (
        stage-Runs patterns pre p post stage state a plays.1.0 x (y ∷ frames) at running
          (subst (λ k. PlaysTo k (patterns a) plays.1.0 (y ∷ frames)) (sym plays.0) plays.1.2)))

-- A whole round of the pattern of a stage, from its beginning.
pub round-Runs :
    (patterns : ℕ → LedPattern) (pre p post : Pointer) (stage : Stage) (state : State) (a : ℕ)
    (leds : List ℕ) (frames : List (List ℕ))
    → pointer_of stage pre p post ≡ some a
    → is_stopped state ≡ false
    → PlaysTo (length leds) (patterns a) (patterns a) frames
    → Runs (during patterns pre p post stage state leds) frames (
        dispatch event_pattern_finished (during patterns pre p post stage state (last frames leds)))
round-Runs patterns pre p post stage state a leds frames at running plays =
    subst
      (λ m. Runs (during m pre p post stage state leds) frames (
        dispatch event_pattern_finished
          (during patterns pre p post stage state (last frames leds))))
      (put_self patterns a)
      (stage-Runs patterns pre p post stage state a (patterns a) leds frames at running plays)

-- A pattern shows frames of the number of the diodes.
pub length-last :
    (n : ℕ) (rewound object : LedPattern) (frames : List (List ℕ)) (leds : List ℕ)
    → PlaysTo n rewound object frames
    → length (last frames leds) ≡ n
unfolding last
length-last n rewound object [] leds plays = absurd plays
length-last n rewound object (x ∷ []) leds plays = plays.0
length-last n rewound object (x ∷ y ∷ frames) leds plays =
    length-last n rewound plays.1.0 (y ∷ frames) x plays.1.2

pub last-append :
    (xs ys : List (List ℕ)) (leds : List ℕ) → last (xs ++ ys) leds ≡ last ys (last xs leds)
unfolding last
last-append [] ys leds = refl
last-append (x ∷ xs) ys leds = last-append xs ys x

-- One more frame before such a part.
part_from :
    (patterns : ℕ → LedPattern) (pre p post : Pointer) (stage : Stage) (state : State) (a : ℕ)
    (object next : LedPattern) (leds x : List ℕ) (xs : List (List ℕ)) (y : List ℕ)
    (ys : List (List ℕ))
    → pointer_of stage pre p post ≡ some a
    → is_stopped state ≡ false
    → length x ≡ length leds
    → step object (replicate (length leds) 0) ≡ record { finished = false; leds = x; object = next }
    → (last_object : LedPattern) × Runs
        (during (put patterns a next) pre p post stage state x)
        xs
        (during (put patterns a last_object) pre p post stage state (last xs x))
      × PlaysTo (length x) (patterns a) last_object (y ∷ ys)
      × (length (last xs x) ≡ length x)
    → (last_object : LedPattern) × Runs
        (during (put patterns a object) pre p post stage state leds)
        (x ∷ xs)
        (during (put patterns a last_object) pre p post stage state (last xs x))
      × PlaysTo (length leds) (patterns a) last_object (y ∷ ys)
      × (length (last xs x) ≡ length leds)
unfolding show
part_from patterns pre p post stage state a object next leds x xs y ys at running same e rest = (
  rest.0,
  then_exec
      (exec-step (put patterns a object) pre p post stage state leds a _ at running
        (ap (λ o. step o (replicate (length leds) 0)) (put_at patterns a object) ∙ e))
      (rw (put-put patterns a object next) rest.1),
  subst (λ k. PlaysTo k (patterns a) rest.0 (y ∷ ys)) same rest.2,
  rest.3 ∙ same,
)

-- The frames of a part of a round, and the pattern that plays the rest.
pub part-Runs :
    (patterns : ℕ → LedPattern) (pre p post : Pointer) (stage : Stage) (state : State) (a : ℕ)
    (object : LedPattern) (leds : List ℕ) (xs : List (List ℕ)) (y : List ℕ) (ys : List (List ℕ))
    → pointer_of stage pre p post ≡ some a
    → is_stopped state ≡ false
    → PlaysTo (length leds) (patterns a) object (xs ++ (y ∷ ys))
    → (next : LedPattern) × Runs
        (during (put patterns a object) pre p post stage state leds)
        xs
        (during (put patterns a next) pre p post stage state (last xs leds))
      × PlaysTo (length leds) (patterns a) next (y ∷ ys)
      × (length (last xs leds) ≡ length leds)
unfolding last show
part-Runs patterns pre p post stage state a object leds [] y ys at running plays =
    (object, here _, plays, refl)
part-Runs patterns pre p post stage state a object leds (x ∷ []) y ys at running plays =
    part_from patterns pre p post stage state a object plays.1.0 leds x [] y ys at running plays.0
      plays.1.1
      (part-Runs patterns pre p post stage state a plays.1.0 x [] y ys at running
        (subst (λ k. PlaysTo k (patterns a) plays.1.0 (y ∷ ys)) (sym plays.0) plays.1.2))
part-Runs patterns pre p post stage state a object leds (x ∷ z ∷ xs) y ys at running plays =
    part_from patterns pre p post stage state a object plays.1.0 leds x (z ∷ xs) y ys at running
      plays.0 plays.1.1
      (part-Runs patterns pre p post stage state a plays.1.0 x (z ∷ xs) y ys at running (
        subst (λ k. PlaysTo k (patterns a) plays.1.0 (z ∷ xs ++ (y ∷ ys))) (sym plays.0) plays.1.2))
