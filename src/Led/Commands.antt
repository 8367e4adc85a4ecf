-- ===== src/Led/Commands.antt =====
-- The functions of IndicationEngine.h that start and end patterns: what the engine shows behind them.
use mynd_firmware.Prelude.{
  ℕ, zero, suc, ◌+◌, ◌-◌, ◌%◌, ◌≡◌, ◌<◌, refl, sym, List, [], ◌++◌, false, none, some, length,
  append-nil, arith,
}
use mathlib.Core.Path.{subst}
use mynd_firmware.Prelude.Words.{u16_mod}
use mynd_firmware.Led.Pattern.{LedPattern}
use mynd_firmware.Led.Engine.{
  Engine, Stage, preload, core, afterload, State, stopped, run_once, run_few, run_inf, terminating,
  Pointer, event_pattern_finished, dispatch, is_stopped, behind_core, count_down, pattern_finished,
}
use mynd_firmware.Led.Shows.{last, PlaysTo, Plays, Runs, Runs-append, here}
use mynd_firmware.Led.Rounds.{during, round-Runs, length-last, last-append}

-- The frames of a number of rounds.
abbrev pub repeated : ℕ → List (List ℕ) → List (List ℕ)
repeated zero frames = []
repeated (suc rounds) frames = frames ++ repeated rounds frames

-- The pattern at a pointer shows the frames from its beginning; there are none where the pointer is null.
abbrev pub PlaysAt : ℕ → (ℕ → LedPattern) → Pointer → List (List ℕ) → Type 0
PlaysAt n patterns none frames = frames ≡ []
PlaysAt n patterns (some a) frames = Plays n (patterns a) frames

-- The same of a pattern that is at its beginning.
abbrev pub PlaysNow : ℕ → (ℕ → LedPattern) → Pointer → List (List ℕ) → Type 0
PlaysNow n patterns none frames = frames ≡ []
PlaysNow n patterns (some a) frames = PlaysTo n (patterns a) (patterns a) frames

-- The engine has stopped and goes on showing a frame.
pub record HasStopped (leds : List ℕ) (e : Engine) : Type 0 where
  pub is_stopped : e.state ≡ stopped
  pub no_pattern : e.pattern_core ≡ none
  pub latest : e.latest_led_state ≡ leds
  pub is_free : e.mutex ≡ false

-- The end of the pattern before the core.
finished_preload :
    (patterns : ℕ → LedPattern) (pre p post : Pointer) (state : State) (leds : List ℕ)
    → is_stopped state ≡ false
    → dispatch event_pattern_finished (during patterns pre p post preload state leds)
      ≡ during patterns pre p post core state leds
unfolding dispatch pattern_finished
finished_preload patterns pre p post stopped leds h = absurd (cc)
finished_preload patterns pre p post run_once leds h = refl
finished_preload patterns pre p post (run_few cnt) leds h = refl
finished_preload patterns pre p post run_inf leds h = refl
finished_preload patterns pre p post terminating leds h = refl

-- The end of a round that is not the last.
finished_round :
    (patterns : ℕ → LedPattern) (pre p post : Pointer) (left : ℕ) (leds : List ℕ)
    → suc (suc left) < u16_mod
    → dispatch event_pattern_finished
        (during patterns pre p post core (run_few (suc (suc left))) leds)
      ≡ during patterns pre p post core (run_few (suc left)) leds
unfolding dispatch pattern_finished count_down
finished_round patterns pre p post left leds h =
    let counted : (suc (suc left) + u16_mod - 1) % u16_mod ≡ suc left = omega arith in
    rw (counted) (ground arith)

-- The state in which the round that ends is the last, and the state behind it.
pub record Ends (state state' : State) : Type 0 where
  running : is_stopped state' ≡ false
  stops :
      (patterns : ℕ → LedPattern) (pre p : Pointer) (leds : List ℕ)
      → HasStopped leds
          (dispatch event_pattern_finished (during patterns pre p none core state leds))
  goes_on :
      (patterns : ℕ → LedPattern) (pre p : Pointer) (a : ℕ) (leds : List ℕ)
      → dispatch event_pattern_finished (during patterns pre p (some a) core state leds)
        ≡ during patterns pre p (some a) afterload state' leds
  ends :
      (patterns : ℕ → LedPattern) (pre p post : Pointer) (leds : List ℕ)
      → HasStopped leds
          (dispatch event_pattern_finished (during patterns pre p post afterload state' leds))

pub run_once-Ends : Ends run_once run_once
unfolding dispatch pattern_finished behind_core
run_once-Ends = record {
  running = refl;
  stops = λ m pre p leds. record {
    is_stopped = refl;
    no_pattern = refl;
    latest = refl;
    is_free = refl;
  };
  goes_on = λ m pre p a leds. refl;
  ends = λ m pre p post leds. record {
    is_stopped = refl;
    no_pattern = refl;
    latest = refl;
    is_free = refl;
  };
}

pub terminating-Ends : Ends terminating terminating
unfolding dispatch pattern_finished behind_core
terminating-Ends = record {
  running = refl;
  stops = λ m pre p leds. record {
    is_stopped = refl;
    no_pattern = refl;
    latest = refl;
    is_free = refl;
  };
  goes_on = λ m pre p a leds. refl;
  ends = λ m pre p post leds. record {
    is_stopped = refl;
    no_pattern = refl;
    latest = refl;
    is_free = refl;
  };
}

pub run_few-Ends : Ends (run_few 1) (run_few 0)
unfolding dispatch pattern_finished behind_core count_down
run_few-Ends = record {
  running = refl;
  stops = λ m pre p leds. record {
    is_stopped = refl;
    no_pattern = refl;
    latest = refl;
    is_free = refl;
  };
  goes_on = λ m pre p a leds. refl;
  ends = λ m pre p post leds. record {
    is_stopped = refl;
    no_pattern = refl;
    latest = refl;
    is_free = refl;
  };
}

-- What is shown behind the last round.
pub ending-Runs :
    (patterns : ℕ → LedPattern) (pre p post : Pointer) (state state' : State) (leds : List ℕ)
    (behind : List (List ℕ))
    → Ends state state'
    → PlaysNow (length leds) patterns post behind
    → (end : Engine) × Runs
        (dispatch event_pattern_finished (during patterns pre p post core state leds))
        behind
        end
      × HasStopped (last behind leds) end
unfolding last
ending-Runs patterns pre p none state state' leds behind ends plays =
    subst
      (λ frames.
        (end : Engine) × Runs
          (dispatch event_pattern_finished (during patterns pre p none core state leds)) frames end
        × HasStopped (last frames leds) end)
      (sym plays) (_, here _, ends.stops patterns pre p leds)
ending-Runs patterns pre p (some a) state state' leds behind ends plays = (
  _,
  rw (ends.goes_on patterns pre p a leds)
      (round-Runs patterns pre p (some a) afterload state' a leds behind refl ends.running plays),
  ends.ends patterns pre p (some a) (last behind leds),
)

-- The rounds of `run_few`, up to the event that ends the last of them.
pub rounds_run :
    (patterns : ℕ → LedPattern) (pre post : Pointer) (a left : ℕ) (leds : List ℕ)
    (round : List (List ℕ))
    → suc left < u16_mod
    → PlaysTo (length leds) (patterns a) (patterns a) round
    → Runs
        (during patterns pre (some a) post core (run_few (suc left)) leds)
        (repeated (suc left) round)
        (dispatch event_pattern_finished (
          during patterns pre
            (some a)
            post
            core
            (run_few 1)
            (last (repeated (suc left) round) leds)))
rounds_run patterns pre post a zero leds round h plays =
    rw (append-nil round)
      (round-Runs patterns pre (some a) post core (run_few 1) a leds round refl refl plays)
rounds_run patterns pre post a (suc left) leds round h plays =
    rw (last-append round (repeated (suc left) round) leds) (
      Runs-append
        (round-Runs patterns pre (some a) post core (run_few (suc (suc left))) a leds round refl
          refl plays)
        (rw (finished_round patterns pre (some a) post left (last round leds) h) (
          rounds_run patterns pre post a left (last round leds) round (omega (arith, h)) (
            subst (λ n. PlaysTo n (patterns a) (patterns a) round)
              (sym (length-last _ _ _ round leds plays)) plays))))

-- What is shown before the core.
unfoldable pub first_stage : Pointer → Stage
first_stage none = core
first_stage (some a) = preload

pub leading-Runs :
    (patterns : ℕ → LedPattern) (pre p post : Pointer) (state : State) (leds : List ℕ)
    (before rest : List (List ℕ)) (end : Engine)
    → is_stopped state ≡ false
    → PlaysNow (length leds) patterns pre before
    → Runs (during patterns pre p post core state (last before leds)) rest end
    → Runs (during patterns pre p post (first_stage pre) state leds) (before ++ rest) end
unfolding first_stage last
leading-Runs patterns none p post state leds before rest end running plays run =
    subst (λ frames. Runs (during patterns none p post core state leds) (frames ++ rest) end)
      (sym plays)
      (subst (λ frames. Runs (during patterns none p post core state (last frames leds)) rest end)
        plays run)
leading-Runs patterns (some a) p post state leds before rest end running plays run =
    Runs-append (round-Runs patterns (some a) p post preload state a leds before refl running plays)
      (rw (finished_preload patterns (some a) p post state (last before leds) running) run)

-- Pre, core rounds and post together.
pub whole_run :
    (patterns : ℕ → LedPattern) (pre p post : Pointer) (first state state' : State) (leds : List ℕ)
    (before middle behind : List (List ℕ))
    → is_stopped first ≡ false
    → Ends state state'
    → PlaysNow (length leds) patterns pre before
    → length (last middle (last before leds)) ≡ length leds
    → Runs (during patterns pre p post core first (last before leds)) middle (
        dispatch event_pattern_finished
          (during patterns pre p post core state (last middle (last before leds))))
    → PlaysNow (length leds) patterns post behind
    → (end : Engine) × Runs
        (during patterns pre p post (first_stage pre) first leds)
        (before ++ (middle ++ behind))
        end
      × HasStopped (last (before ++ (middle ++ behind)) leds) end
whole_run patterns pre p post first state state' leds before middle behind running ends lead same
      run tail =
    let l = last middle (last before leds) in
    let done =
      ending-Runs patterns pre p post state state' l behind ends
        (subst (λ n. PlaysNow n patterns post behind) (sym same) tail) in
    (
      done.0,
      leading-Runs patterns pre p post first leds before (middle ++ behind) done.0 running lead
          (Runs-append run done.1),
      rw (last-append before (middle ++ behind) leds)
          (rw (last-append middle behind (last before leds)) done.2),
    )
