-- ===== src/Led/Ending.antt =====
-- run_inf and finish_gently of IndicationEngine.h: a pattern that is repeated until it is ended, and then ends
-- with its round.
use mynd_firmware.Prelude.{ℕ, zero, suc, ◌≡◌, refl, sym, ◌∙◌, List, ◌∷◌, ◌++◌, some, length}
use mathlib.Core.Path.{subst}
use mynd_firmware.Led.Pattern.{LedPattern}
use mynd_firmware.Led.Engine.{
  Engine, core, run_inf, terminating, Pointer, event_run_inf, event_finish_gently,
  event_pattern_finished, put, dispatch, pattern_finished, finish_gently_in,
}
use mynd_firmware.Led.Shows.{
  exec_times, last, PlaysTo, Plays, Runs, Runs-append, exec_times-Runs, here,
}
use mynd_firmware.Led.Rounds.{
  during, round-Runs, part-Runs, stage-Runs, length-last, last-append, put_self,
}
use mynd_firmware.Led.Commands.{
  repeated, PlaysAt, PlaysNow, HasStopped, leading-Runs, ending-Runs, terminating-Ends,
}
use mynd_firmware.Led.Resets.{memory}
use mynd_firmware.Led.Programs.{
  pre_ready, core_ready, post_ready, length-last_now, length-last_repeated, started_inf,
}

finished_inf :
    (patterns : ℕ → LedPattern) (pre p post : Pointer) (leds : List ℕ)
    → dispatch event_pattern_finished (during patterns pre p post core run_inf leds)
      ≡ during patterns pre p post core run_inf leds
unfolding dispatch pattern_finished
finished_inf patterns pre p post leds = refl

ended_gently :
    (patterns : ℕ → LedPattern) (pre p post : Pointer) (leds : List ℕ)
    → dispatch event_finish_gently (during patterns pre p post core run_inf leds)
      ≡ during patterns pre p post core terminating leds
unfolding dispatch finish_gently_in
ended_gently patterns pre p post leds = refl

-- The rounds of run_inf.
inf_rounds_run :
    (patterns : ℕ → LedPattern) (pre post : Pointer) (a rounds : ℕ) (leds : List ℕ)
    (round : List (List ℕ))
    → PlaysTo (length leds) (patterns a) (patterns a) round
    → Runs
        (during patterns pre (some a) post core run_inf leds)
        (repeated rounds round)
        (during patterns pre (some a) post core run_inf (last (repeated rounds round) leds))
unfolding last
inf_rounds_run patterns pre post a zero leds round plays = here _
inf_rounds_run patterns pre post a (suc rounds) leds round plays =
    rw (last-append round (repeated rounds round) leds) (
      Runs-append (round-Runs patterns pre (some a) post core run_inf a leds round refl refl plays)
        (rw (finished_inf patterns pre (some a) post (last round leds)) (
          inf_rounds_run patterns pre post a rounds (last round leds) round (
            subst (λ n. PlaysTo n (patterns a) (patterns a) round)
              (sym (length-last _ _ _ round leds plays)) plays))))

-- finish_gently in the middle of a round: the rest of it and the pattern behind.
gently-Runs :
    (patterns : ℕ → LedPattern) (pre post : Pointer) (a : ℕ) (next : LedPattern) (leds : List ℕ)
    (rest behind : List (List ℕ))
    → PlaysTo (length leds) (patterns a) next rest
    → PlaysNow (length leds) patterns post behind
    → (end : Engine) × Runs
        (dispatch event_finish_gently
          (during (put patterns a next) pre (some a) post core run_inf leds))
        (rest ++ behind)
        end
      × HasStopped (last (rest ++ behind) leds) end
gently-Runs patterns pre post a next leds rest behind plays tail =
    let same = length-last _ _ _ rest leds plays in
    let done =
      ending-Runs patterns pre (some a) post terminating terminating (last rest leds) behind
        terminating-Ends (subst (λ n. PlaysNow n patterns post behind) (sym same) tail) in
    (
      done.0,
      rw (ended_gently (put patterns a next) pre (some a) post leds) (
          Runs-append
            (stage-Runs patterns pre (some a) post core terminating a next leds rest refl refl
              plays)
            done.1),
      rw (last-append rest behind leds) done.2,
    )

-- Whatever the engine was showing: behind run_inf, where the patterns of the three pointers show some frames on
-- dark diodes from their beginnings, the calls of exec show those of the pattern before, then those of the
-- pattern for any number of rounds, then the first frames `xs` of one more round; and finish_gently behind any
-- of them that is not the last of the round lets the calls of exec show the rest of that round and the pattern
-- behind, and then the engine has stopped, and keeps the last frame.
pub run_inf-finish_gently :
    (e : Engine) (pre post : Pointer) (p rounds : ℕ) (before xs : List (List ℕ)) (y : List ℕ)
    (ys behind : List (List ℕ))
    → PlaysAt (length e.latest_led_state) e.patterns pre before
    → Plays (length e.latest_led_state) (e.patterns p) (xs ++ (y ∷ ys))
    → PlaysAt (length e.latest_led_state) e.patterns post behind
    → (shown : Engine) × (exec_times
          (length (before ++ (repeated rounds (xs ++ (y ∷ ys)) ++ xs)))
          (dispatch (event_run_inf pre (some p) post) e)
        ≡ some (before ++ (repeated rounds (xs ++ (y ∷ ys)) ++ xs), shown))
      × ((end : Engine) × (exec_times
              (length (y ∷ ys ++ behind))
              (dispatch event_finish_gently shown)
            ≡ some (y ∷ ys ++ behind, end))
          × HasStopped (last (ys ++ behind) y) end)
unfolding last
run_inf-finish_gently e pre post p rounds before xs y ys behind lead plays tail =
    let n = length e.latest_led_state in
    let m = memory pre (some p) post e.patterns in
    let lead' = pre_ready e.patterns pre (some p) post n before lead in
    let plays' = core_ready e.patterns pre post p n (xs ++ (y ∷ ys)) plays in
    let l = last before e.latest_led_state in
    let same = length-last_now n m pre before e.latest_led_state refl lead' in
    let l' = last (repeated rounds (xs ++ (y ∷ ys))) l in
    let same' : length l' ≡ n =
      length-last_repeated n (m p) rounds (xs ++ (y ∷ ys)) l same plays' in
    let part =
      part-Runs m pre (some p) post core run_inf p (m p) l' xs y ys refl refl
        (subst (λ k. PlaysTo k (m p) (m p) (xs ++ (y ∷ ys))) (sym same') plays') in
    let mid : Engine = during (put m p part.0) pre (some p) post core run_inf (last xs l') in
    let run =
      leading-Runs m pre (some p) post run_inf e.latest_led_state before
        (repeated rounds (xs ++ (y ∷ ys)) ++ xs) mid refl lead'
        (Runs-append
          (inf_rounds_run m pre post p rounds l (xs ++ (y ∷ ys))
            (subst (λ k. PlaysTo k (m p) (m p) (xs ++ (y ∷ ys))) (sym same) plays'))
          (subst (λ f. Runs (during f pre (some p) post core run_inf l') xs mid) (put_self m p)
            part.1)) in
    let end =
      gently-Runs m pre post p part.0 (last xs l') (y ∷ ys) behind
        (subst (λ k. PlaysTo k (m p) part.0 (y ∷ ys)) (sym part.3) part.2)
        (subst (λ k. PlaysNow k m post behind) (sym (part.3 ∙ same'))
          (post_ready e.patterns pre (some p) post n behind tail)) in
    (
      mid,
      rw (started_inf e pre (some p) post) (exec_times-Runs run),
      (end.0, exec_times-Runs end.1, end.2),
    )
