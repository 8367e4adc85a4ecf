-- ===== src/Led/Engine.antt =====
-- IndicationEngine.h: the state machine that shows patterns on the diodes, for more than one diode (the code
-- under `if constexpr (LED_NUMS == 1)` is not built into the firmware, which has three). A pattern is passed by
-- its address, and `patterns` is the memory that holds the objects. `none` is a call through a null pointer.
use mynd_firmware.Prelude.{
  ℕ, ◌+◌, ◌-◌, ◌%◌, List, Bool, true, false, Option, none, some, map, length, replicate,
  if◌then◌else◌, ◌==◌,
}
use mynd_firmware.Prelude.Words.{u16_mod}
use mynd_firmware.Led.Pattern.{LedPattern, step, reset, get_pattern_id}

-- `Engine::Stage`
pub data Stage : Type 0 where
  preload core afterload : Stage

-- `Engine::state`
pub data State : Type 0 where
  stopped run_once : State
  run_few : ℕ → State
  run_inf terminating : State

-- A pointer to a pattern, null or an address.
abbrev pub Pointer : Type 0
Pointer = Option ℕ

-- The members of `Engine` and the patterns in memory.
pub record Engine : Type 0 where
  pub stage : Stage
  pub pattern_preload : Pointer
  pub pattern_core : Pointer
  pub pattern_afterload : Pointer
  pub latest_led_state : List ℕ
  pub state : State
  pub mutex : Bool
  pub patterns : ℕ → LedPattern

-- `Engine::event`, less the flag `transient`, which is read for one diode only
pub data Event : Type 0 where
  event_run_once : Pointer → Pointer → Pointer → Event
  event_run_few : Pointer → Pointer → Pointer → ℕ → Event
  event_run_inf : Pointer → Pointer → Pointer → Event
  event_finish event_finish_gently event_pattern_finished : Event

-- The memory with another object at an address.
unfoldable pub put : (ℕ → LedPattern) → ℕ → LedPattern → ℕ → LedPattern
put patterns a object b = if b == a then object else patterns b

-- `if (m_pattern) m_pattern->reset();`
unfoldable pub reset_at : Pointer → (ℕ → LedPattern) → ℕ → LedPattern
unfolding put
reset_at none patterns = patterns
reset_at (some a) patterns = put patterns a (reset (patterns a))

-- `Engine::reset`
unfoldable pub reset_all : Engine → Engine
unfolding reset_at
reset_all e = record e {
  patterns =
      reset_at e.pattern_afterload
        (reset_at e.pattern_core (reset_at e.pattern_preload e.patterns));
}

-- The handlers of the three run events: the patterns, their reset, the first stage and the new state.
unfoldable pub start : Pointer → Pointer → Pointer → State → Engine → Engine
unfolding reset_all
start pre p post state e =
    record (reset_all
      (record e { pattern_preload = pre; pattern_core = p; pattern_afterload = post })) {
        stage = elim pre [ none ↦ core | some a ↦ preload ];
        state = state;
      }

-- `reset(); m_pattern_core = nullptr; return state_stopped{};`
unfoldable pub stop : Engine → Engine
unfolding reset_all
stop e = record (reset_all e) { pattern_core = none; state = stopped }

-- The handler of `event_finish_gently`.
unfoldable pub finish_gently_in : State → State
finish_gently_in stopped = stopped
finish_gently_in run_once = terminating
finish_gently_in (run_few cnt) = terminating
finish_gently_in run_inf = terminating
finish_gently_in terminating = terminating

-- `if (m_pattern_afterload) m_stage = Stage::Afterload; else` stop.
unfoldable pub behind_core : Engine → Engine
unfolding stop
behind_core e = elim e.pattern_afterload [ none ↦ stop e | some a ↦ record e { stage = afterload } ]

-- `--s.cnt` of the uint16_t, and its test.
unfoldable pub count_down : ℕ → Engine → Engine
unfolding behind_core
count_down cnt e =
    let left = (cnt + u16_mod - 1) % u16_mod in
    let counted = record e { state = run_few left } in
    if left == 0 then behind_core counted else counted

-- The handler of `event_pattern_finished`, by the state and the stage.
unfoldable pub pattern_finished : State → Stage → Engine → Engine
unfolding behind_core count_down stop
pattern_finished stopped stage e = e
pattern_finished run_inf preload e = record e { stage = core }
pattern_finished run_inf core e = e
pattern_finished run_inf afterload e = e
pattern_finished run_once preload e = record e { stage = core }
pattern_finished run_once core e = behind_core e
pattern_finished run_once afterload e = stop e
pattern_finished terminating preload e = record e { stage = core }
pattern_finished terminating core e = behind_core e
pattern_finished terminating afterload e = stop e
pattern_finished (run_few cnt) preload e = record e { stage = core }
pattern_finished (run_few cnt) core e = count_down cnt e
pattern_finished (run_few cnt) afterload e = stop e

-- The visitor of `Engine::dispatch`.
unfoldable pub handle : Event → Engine → Engine
unfolding start stop pattern_finished
handle (event_run_once pre p post) e = start pre p post run_once e
handle (event_run_few pre p post cnt) e = start pre p post (run_few cnt) e
handle (event_run_inf pre p post) e = start pre p post run_inf e
handle event_finish e = stop e
handle event_finish_gently e = record e { state = finish_gently_in e.state }
handle event_pattern_finished e = pattern_finished e.state e.stage e

-- `Engine::dispatch`: the mutex is free behind it.
unfoldable pub dispatch : Event → Engine → Engine
unfolding handle
dispatch event e = record (handle event (record e { mutex = true })) { mutex = false }

-- The constructor, for a number of diodes; the stage is not initialised there.
unfoldable pub initial_engine : ℕ → Stage → (ℕ → LedPattern) → Engine
initial_engine led_nums stage patterns = record {
  stage = stage;
  pattern_preload = none;
  pattern_core = none;
  pattern_afterload = none;
  latest_led_state = replicate led_nums 0;
  state = stopped;
  mutex = false;
  patterns = patterns;
}

-- The functions that start patterns, and those that end them.
abbrev pub run_once_with_preload_and_postload : ℕ → ℕ → ℕ → Engine → Engine
run_once_with_preload_and_postload p pre post =
    dispatch (event_run_once (some pre) (some p) (some post))

abbrev pub run_few_with_preload_and_postload : ℕ → ℕ → ℕ → ℕ → Engine → Engine
run_few_with_preload_and_postload p pre post cnt =
    dispatch (event_run_few (some pre) (some p) (some post) cnt)

abbrev pub run_inf_with_preload_and_postload : ℕ → ℕ → ℕ → Engine → Engine
run_inf_with_preload_and_postload p pre post =
    dispatch (event_run_inf (some pre) (some p) (some post))

abbrev pub finish_and_reset_led_values : Engine → Engine
finish_and_reset_led_values e = record (dispatch event_finish e) {
  latest_led_state = map (λ x. 0) e.latest_led_state;
}

-- A step of the pattern at an address, from dark diodes: the frame, whether the pattern is finished, and the
-- engine.
unfoldable pub step_at : ℕ → Engine → List ℕ × Bool × Engine
unfolding put
step_at a e =
    let s = step (e.patterns a) (replicate (length e.latest_led_state) 0) in
    (s.leds, s.finished, record e { patterns = put e.patterns a s.object })

-- The switch of `Engine::exec`: a stage around the core whose pattern is null is finished at once.
unfoldable pub step_around : Pointer → Engine → List ℕ × Bool × Engine
unfolding step_at
step_around none e = (replicate (length e.latest_led_state) 0, true, e)
step_around (some a) e = step_at a e

unfoldable pub step_stage : Stage → Engine → Option (List ℕ × Bool × Engine)
unfolding step_around step_at
step_stage preload e = some (step_around e.pattern_preload e)
step_stage core e = elim e.pattern_core [ none ↦ none | some a ↦ some (step_at a e) ]
step_stage afterload e = some (step_around e.pattern_afterload e)

-- `Engine::is_running`
abbrev pub is_stopped : State → Bool
is_stopped stopped = true
is_stopped run_once = false
is_stopped (run_few cnt) = false
is_stopped run_inf = false
is_stopped terminating = false

-- What follows the step: the frame is remembered, and the end of the pattern is dispatched.
unfoldable pub show : List ℕ → Bool → Engine → Engine
unfolding dispatch
show leds finished e =
    let shown = record e { latest_led_state = leds } in
    if finished then dispatch event_pattern_finished shown else shown

-- `Engine::exec`: the frame that it returns, and the engine.
unfoldable pub exec : Engine → Option (List ℕ × Engine)
unfolding step_stage show
exec e =
    let stepped = step_stage e.stage e in
    if e.mutex
    then some (e.latest_led_state, e)
    else if is_stopped e.state
    then some (e.latest_led_state, e)
    else elim stepped [
      | none ↦ none
      | some (leds, finished, e') ↦ some (leds, show leds finished e')
    ]

-- `Engine::getPatternId`
unfoldable pub pattern_id : Engine → Option ℕ
pattern_id e =
    if is_stopped e.state
    then none
    else elim e.pattern_core [ none ↦ none | some a ↦ some (get_pattern_id (e.patterns a)) ]

-- `Engine::is_running(p)` for the pattern at an address
unfoldable pub is_running_pattern : ℕ → Engine → Bool
unfolding pattern_id
is_running_pattern a e = elim (pattern_id e) [
  | none ↦ false
  | some id ↦ id == get_pattern_id (e.patterns a)
]
