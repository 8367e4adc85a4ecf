-- ===== src/Led/Calls.antt =====
-- Any sequence of calls of the engine of IndicationEngine.h: it never calls through a null pointer.
use mynd_firmware.Prelude.{
  ℕ, ◌≡◌, refl, ap, ◌∙◌, List, [], ◌∷◌, Bool, true, false, Option, none, some, ◌⊎◌, inl, inr, ◌==◌,
  Bool-cases, Option-cases, ◌+◌, ◌-◌, ◌%◌,
}
use mynd_firmware.Prelude.Words.{u16_mod}
use mynd_firmware.Led.Engine.{
  Engine, Stage, preload, core, afterload, State, stopped, run_once, run_few, run_inf, terminating,
  Pointer, event_run_once, event_run_few, event_run_inf, event_finish, event_finish_gently,
  dispatch, handle, exec, is_stopped, start, stop, behind_core, count_down, pattern_finished,
  finish_gently_in, step_at, step_around, step_stage, show,
}

-- The calls of the engine's functions; the patterns to run are references, those around them may be null.
pub data Call : Type 0 where
  call_run_once : Pointer → ℕ → Pointer → Call
  call_run_few : Pointer → ℕ → Pointer → ℕ → Call
  call_run_inf : Pointer → ℕ → Pointer → Call
  call_finish call_finish_gently call_exec : Call

unfoldable pub do_call : Call → Engine → Option Engine
unfolding dispatch exec
do_call (call_run_once pre p post) e = some (dispatch (event_run_once pre (some p) post) e)
do_call (call_run_few pre p post cnt) e = some (dispatch (event_run_few pre (some p) post cnt) e)
do_call (call_run_inf pre p post) e = some (dispatch (event_run_inf pre (some p) post) e)
do_call call_finish e = some (dispatch event_finish e)
do_call call_finish_gently e = some (dispatch event_finish_gently e)
do_call call_exec e = elim (exec e) [ none ↦ none | some (leds, e') ↦ some e' ]

unfoldable pub do_calls : List Call → Engine → Option Engine
do_calls [] e = some e
do_calls (c ∷ calls) e = elim (do_call c e) [ none ↦ none | some e' ↦ do_calls calls e' ]

-- An engine that has not stopped has a pattern.
abbrev pub IsSafe : Engine → Type 0
IsSafe e = (is_stopped e.state ≡ true) ⊎ ((a : ℕ) × (e.pattern_core ≡ some a))

behind_core-IsSafe : (e : Engine) (a : ℕ) → e.pattern_core ≡ some a → IsSafe (behind_core e)
unfolding behind_core stop
behind_core-IsSafe e a h = elim (Option-cases e.pattern_afterload) [
  | inl k ↦ rw (k) (inl refl)
  | inr (b, k) ↦ rw (k) (inr (a, h))
]

count_down-IsSafe :
    (cnt : ℕ) (e : Engine) (a : ℕ) → e.pattern_core ≡ some a → IsSafe (count_down cnt e)
unfolding count_down
count_down-IsSafe cnt e a h = elim (Bool-cases ((cnt + u16_mod - 1) % u16_mod == 0)) [
  | inl k ↦
      rw (k) (behind_core-IsSafe (record e { state = run_few ((cnt + u16_mod - 1) % u16_mod) }) a h)
  | inr k ↦ rw (k) (inr (a, h))
]

pattern_finished-IsSafe :
    (state : State) (stage : Stage) (e : Engine) (a : ℕ)
    → e.pattern_core ≡ some a
    → IsSafe (pattern_finished state stage e)
unfolding pattern_finished stop
pattern_finished-IsSafe stopped stage e a h = inr (a, h)
pattern_finished-IsSafe run_inf preload e a h = inr (a, h)
pattern_finished-IsSafe run_inf core e a h = inr (a, h)
pattern_finished-IsSafe run_inf afterload e a h = inr (a, h)
pattern_finished-IsSafe run_once preload e a h = inr (a, h)
pattern_finished-IsSafe run_once core e a h = behind_core-IsSafe e a h
pattern_finished-IsSafe run_once afterload e a h = inl refl
pattern_finished-IsSafe terminating preload e a h = inr (a, h)
pattern_finished-IsSafe terminating core e a h = behind_core-IsSafe e a h
pattern_finished-IsSafe terminating afterload e a h = inl refl
pattern_finished-IsSafe (run_few cnt) preload e a h = inr (a, h)
pattern_finished-IsSafe (run_few cnt) core e a h = count_down-IsSafe cnt e a h
pattern_finished-IsSafe (run_few cnt) afterload e a h = inl refl

show-IsSafe :
    (leds : List ℕ) (finished : Bool) (e : Engine) (a : ℕ)
    → e.pattern_core ≡ some a
    → IsSafe (show leds finished e)
unfolding show dispatch handle
show-IsSafe leds true e a h =
    pattern_finished-IsSafe e.state e.stage (record e { latest_led_state = leds; mutex = true }) a h
show-IsSafe leds false e a h = inr (a, h)

step_around-core : (q : Pointer) (e : Engine) → (step_around q e).2.pattern_core ≡ e.pattern_core
unfolding step_around step_at
step_around-core none e = refl
step_around-core (some a) e = refl

stage_pattern :
    (stage : Stage) (e : Engine) (a : ℕ)
    → e.pattern_core ≡ some a
    → (x : List ℕ × Bool × Engine) × (step_stage stage e ≡ some x) × (x.2.pattern_core ≡ some a)
unfolding step_stage step_at
stage_pattern preload e a h =
    (step_around e.pattern_preload e, refl, step_around-core e.pattern_preload e ∙ h)
stage_pattern core e a h =
    let stepped : step_stage core e ≡ some (step_at a e) =
      ap
        (λ (q : Pointer). elim q as (λ q. Option (List ℕ × Bool × Engine)) [
          | none ↦ none
          | some b ↦ some (step_at b e)
        ])
        h in
    (step_at a e, stepped, h)
stage_pattern afterload e a h =
    (step_around e.pattern_afterload e, refl, step_around-core e.pattern_afterload e ∙ h)

-- Finishing gently leaves a stopped engine stopped.
finish_gently_stopped :
    (state : State) → is_stopped state ≡ true → is_stopped (finish_gently_in state) ≡ true
unfolding finish_gently_in
finish_gently_stopped stopped h = refl
finish_gently_stopped run_once h = h
finish_gently_stopped (run_few cnt) h = h
finish_gently_stopped run_inf h = h
finish_gently_stopped terminating h = h

exec-IsSafe : (e : Engine) → IsSafe e → (x : List ℕ × Engine) × (exec e ≡ some x) × IsSafe x.1
unfolding exec
exec-IsSafe e safe = elim (Bool-cases e.mutex) [
  | inl k ↦ ((e.latest_led_state, e), simp (k), safe)
  | inr k ↦ elim (Bool-cases (is_stopped e.state)) [
    | inl l ↦ ((e.latest_led_state, e), simp (k, l), safe)
    | inr l ↦ elim safe [
      | inl l' ↦ absurd (cc)
      | inr (a, h) ↦
          (let s = stage_pattern e.stage e a h in
            (
              (s.0.0, show s.0.0 s.0.1 s.0.2),
              simp (k, l, s.1),
              show-IsSafe s.0.0 s.0.1 s.0.2 a s.2,
            ))
    ]
  ]
]

do_call-IsSafe :
    (c : Call) (e : Engine) → IsSafe e → (e' : Engine) × (do_call c e ≡ some e') × IsSafe e'
unfolding do_call dispatch handle start stop
do_call-IsSafe (call_run_once pre p post) e safe = (_, refl, inr (p, refl))
do_call-IsSafe (call_run_few pre p post cnt) e safe = (_, refl, inr (p, refl))
do_call-IsSafe (call_run_inf pre p post) e safe = (_, refl, inr (p, refl))
do_call-IsSafe call_finish e safe = (_, refl, inl refl)
do_call-IsSafe call_finish_gently e (inl h) = (_, refl, inl (finish_gently_stopped e.state h))
do_call-IsSafe call_finish_gently e (inr h) = (_, refl, inr h)
do_call-IsSafe call_exec e safe =
    let done = exec-IsSafe e safe in (done.0.1, rw (done.1, do_call) refl, done.2)

-- From an engine that has stopped or has a pattern, as the constructed one and every one behind a call are, no
-- sequence of calls makes exec call a pattern through a null pointer, and the engine behind it is such a one.
pub do_calls-IsSafe :
    (calls : List Call) (e : Engine)
    → IsSafe e
    → (end : Engine) × (do_calls calls e ≡ some end) × IsSafe end
unfolding do_calls
do_calls-IsSafe [] e safe = (e, refl, safe)
do_calls-IsSafe (c ∷ calls) e safe =
    let next = do_call-IsSafe c e safe in
    let rest = do_calls-IsSafe calls next.0 next.2 in (rest.0, rw (next.1, do_calls) rest.1, rest.2)
