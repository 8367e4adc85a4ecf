-- ===== src/Led/Programs.antt =====
-- Whole programs of the functions of IndicationEngine.h: run_once, run_few and run_inf with their patterns
-- before and behind, and finish_gently.
use mynd_firmware.Prelude.{ℕ, zero, suc, ◌≡◌, ◌<◌, refl, sym, List, ◌++◌, none, some, length, arith}
use mathlib.Core.Path.{subst}
use mynd_firmware.Prelude.Words.{u16_mod}
use mynd_firmware.Led.Pattern.{LedPattern}
use mynd_firmware.Led.Engine.{
  Engine, core, run_once, run_few, run_inf, Pointer, event_run_once, event_run_few, event_run_inf,
  dispatch, reset_all, start,
}
use mynd_firmware.Led.Shows.{exec_times, last, PlaysTo, Plays, exec_times-Runs}
use mynd_firmware.Led.Rounds.{during, round-Runs, length-last, last-append}
use mynd_firmware.Led.Commands.{
  repeated, PlaysAt, PlaysNow, HasStopped, rounds_run, whole_run, run_once-Ends, run_few-Ends,
  first_stage,
}
use mynd_firmware.Led.Resets.{memory, memory_at_pre, memory_at_core, memory_at_post}

pub pre_ready :
    (patterns : ℕ → LedPattern) (pre p post : Pointer) (n : ℕ) (frames : List (List ℕ))
    → PlaysAt n patterns pre frames
    → PlaysNow n (memory pre p post patterns) pre frames
pre_ready patterns none p post n frames h = h
pre_ready patterns (some a) p post n frames h =
    subst (λ o. PlaysTo n o o frames) (sym (memory_at_pre p post patterns a)) h

pub core_ready :
    (patterns : ℕ → LedPattern) (pre post : Pointer) (a n : ℕ) (frames : List (List ℕ))
    → Plays n (patterns a) frames
    → PlaysNow n (memory pre (some a) post patterns) (some a) frames
core_ready patterns pre post a n frames h =
    subst (λ o. PlaysTo n o o frames) (sym (memory_at_core pre post patterns a)) h

pub post_ready :
    (patterns : ℕ → LedPattern) (pre p post : Pointer) (n : ℕ) (frames : List (List ℕ))
    → PlaysAt n patterns post frames
    → PlaysNow n (memory pre p post patterns) post frames
post_ready patterns pre p none n frames h = h
post_ready patterns pre p (some a) n frames h =
    subst (λ o. PlaysTo n o o frames) (sym (memory_at_post pre p patterns a)) h

started_few :
    (e : Engine) (pre p post : Pointer) (cnt : ℕ)
    → dispatch (event_run_few pre p post cnt) e
      ≡ during
          (memory pre p post e.patterns)
          pre
          p
          post
          (first_stage pre)
          (run_few cnt)
          e.latest_led_state
unfolding dispatch start reset_all first_stage
started_few e none p post cnt = refl
started_few e (some a) p post cnt = refl

started_once :
    (e : Engine) (pre p post : Pointer)
    → dispatch (event_run_once pre p post) e
      ≡ during
          (memory pre p post e.patterns)
          pre
          p
          post
          (first_stage pre)
          run_once
          e.latest_led_state
unfolding dispatch start reset_all first_stage
started_once e none p post = refl
started_once e (some a) p post = refl

pub started_inf :
    (e : Engine) (pre p post : Pointer)
    → dispatch (event_run_inf pre p post) e
      ≡ during
          (memory pre p post e.patterns)
          pre
          p
          post
          (first_stage pre)
          run_inf
          e.latest_led_state
unfolding dispatch start reset_all first_stage
started_inf e none p post = refl
started_inf e (some a) p post = refl

-- The first frames keep the number of the diodes.
pub length-last_now :
    (n : ℕ) (patterns : ℕ → LedPattern) (q : Pointer) (frames : List (List ℕ)) (leds : List ℕ)
    → length leds ≡ n
    → PlaysNow n patterns q frames
    → length (last frames leds) ≡ n
unfolding last
length-last_now n patterns none frames leds same h =
    subst (λ f. length (last f leds) ≡ n) (sym h) same
length-last_now n patterns (some a) frames leds same h = length-last n _ _ frames leds h

pub length-last_repeated :
    (n : ℕ) (object : LedPattern) (rounds : ℕ) (frames : List (List ℕ)) (leds : List ℕ)
    → length leds ≡ n
    → PlaysTo n object object frames
    → length (last (repeated rounds frames) leds) ≡ n
unfolding last
length-last_repeated n object zero frames leds same h = same
length-last_repeated n object (suc rounds) frames leds same h =
    rw (last-append frames (repeated rounds frames) leds) (
      length-last_repeated n object rounds frames (last frames leds)
        (length-last n _ _ frames leds h) h)

-- Whatever the engine was showing: behind run_few, where the patterns of the three pointers, of which those
-- before and behind may be null, show some frames on dark diodes from their beginnings, and the count lies
-- between 1 and 65535, as many calls of exec as there are frames show those of the pattern before, then those
-- of the pattern `cnt` times, then those of the pattern behind; then the engine has stopped, and keeps the
-- last frame. The pointers may be equal.
pub run_few_shows :
    (e : Engine) (pre post : Pointer) (p cnt : ℕ) (before round behind : List (List ℕ))
    → 0 < cnt
    → cnt < u16_mod
    → PlaysAt (length e.latest_led_state) e.patterns pre before
    → Plays (length e.latest_led_state) (e.patterns p) round
    → PlaysAt (length e.latest_led_state) e.patterns post behind
    → (end : Engine) × (exec_times
          (length (before ++ (repeated cnt round ++ behind)))
          (dispatch (event_run_few pre (some p) post cnt) e)
        ≡ some (before ++ (repeated cnt round ++ behind), end))
      × HasStopped (last (before ++ (repeated cnt round ++ behind)) e.latest_led_state) end
run_few_shows e pre post p zero before round behind positive small lead plays tail =
    absurd (omega arith)
run_few_shows e pre post p (suc left) before round behind positive small lead plays tail =
    let n = length e.latest_led_state in
    let m = memory pre (some p) post e.patterns in
    let lead' = pre_ready e.patterns pre (some p) post n before lead in
    let plays' = core_ready e.patterns pre post p n round plays in
    let same = length-last_now n m pre before e.latest_led_state refl lead' in
    let run =
      whole_run m pre (some p) post (run_few (suc left)) (run_few 1) (run_few 0) e.latest_led_state
        before (repeated (suc left) round) behind refl run_few-Ends lead'
        (length-last_repeated n (m p) (suc left) round (last before e.latest_led_state) same plays')
        (rounds_run m pre post p left (last before e.latest_led_state) round small
          (subst (λ k. PlaysTo k (m p) (m p) round) (sym same) plays'))
        (post_ready e.patterns pre (some p) post n behind tail) in
    (run.0, rw (started_few e pre (some p) post (suc left)) (exec_times-Runs run.1), run.2)

-- Whatever the engine was showing: behind run_once, where the patterns of the three pointers, of which those
-- before and behind may be null, show some frames on dark diodes from their beginnings, as many calls of exec
-- as there are frames show those of the three patterns in order, each once; then the engine has stopped, and
-- keeps the last frame.
run_once_shows :
    (e : Engine) (pre post : Pointer) (p : ℕ) (before round behind : List (List ℕ))
    → PlaysAt (length e.latest_led_state) e.patterns pre before
    → Plays (length e.latest_led_state) (e.patterns p) round
    → PlaysAt (length e.latest_led_state) e.patterns post behind
    → (end : Engine) × (exec_times
          (length (before ++ (round ++ behind)))
          (dispatch (event_run_once pre (some p) post) e)
        ≡ some (before ++ (round ++ behind), end))
      × HasStopped (last (before ++ (round ++ behind)) e.latest_led_state) end
run_once_shows e pre post p before round behind lead plays tail =
    let n = length e.latest_led_state in
    let m = memory pre (some p) post e.patterns in
    let lead' = pre_ready e.patterns pre (some p) post n before lead in
    let plays' = core_ready e.patterns pre post p n round plays in
    let same = length-last_now n m pre before e.latest_led_state refl lead' in
    let run =
      whole_run m pre (some p) post run_once run_once run_once e.latest_led_state before round
        behind refl run_once-Ends lead'
        (length-last n _ _ round (last before e.latest_led_state) plays')
        (round-Runs m pre (some p) post core run_once p (last before e.latest_led_state) round refl
          refl (subst (λ k. PlaysTo k (m p) (m p) round) (sym same) plays'))
        (post_ready e.patterns pre (some p) post n behind tail) in
    (run.0, rw (started_once e pre (some p) post) (exec_times-Runs run.1), run.2)
