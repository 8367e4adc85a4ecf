-- ===== src/Led/Tests.antt =====
-- The engine of IndicationEngine.h on three diodes, with small patterns.
use mynd_firmware.Prelude.{
  ℕ, ◌≡◌, refl, List, [], ◌∷◌, ◌++◌, none, some, inl, arith, if◌then◌else◌, ◌==◌,
}
use mynd_firmware.Led.Pattern.{
  pattern_fn, pattern_const, Generic, generic, LedPattern, fill_masked, GenericRgb, generic_rgb,
  DoubleBlink, double_blink, step, reset,
}
use mynd_firmware.Led.Engine.{
  Engine, core, initial_engine, event_run_few, event_run_inf, event_finish_gently, dispatch,
}
use mynd_firmware.Led.Shows.{exec_times, last, Plays}
use mynd_firmware.Led.Commands.{HasStopped}
use mynd_firmware.Led.Programs.{run_few_shows}
use mynd_firmware.Led.Ending.{run_inf-finish_gently}
use mynd_firmware.Led.Frames.{Generic-Plays}
use mynd_firmware.Led.RgbFrames.{GenericRgb-Plays}
use mynd_firmware.Led.Calls.{
  do_calls, do_calls-IsSafe, IsSafe, Call, call_run_inf, call_finish_gently, call_exec, call_finish,
}

-- A ramp on the first diode, a solid colour on all, and dark.
abbrev ramp : Generic
ramp = record { led_mask = 1; p = pattern_fn (10 ∷ 20 ∷ []) ∷ []; pattern_index = 0; id = 239 }

abbrev solid : Generic
solid = record {
  led_mask = 7;
  p = pattern_const 7 1 ∷ pattern_const 9 1 ∷ [];
  pattern_index = 0;
  id = 238;
}

abbrev dark : Generic
dark = record { led_mask = 4; p = pattern_const 0 1 ∷ []; pattern_index = 0; id = 237 }

abbrev patterns : ℕ → LedPattern
patterns a = if a == 0 then generic ramp else if a == 1 then generic solid else generic dark

abbrev engine : Engine
engine = initial_engine 3 core patterns

abbrev ramp_frames : List (List ℕ)
ramp_frames = (10 ∷ 0 ∷ 0 ∷ []) ∷ (20 ∷ 0 ∷ 0 ∷ []) ∷ []

abbrev solid_frames : List (List ℕ)
solid_frames = (7 ∷ 7 ∷ 7 ∷ []) ∷ (9 ∷ 9 ∷ 9 ∷ []) ∷ []

abbrev dark_frames : List (List ℕ)
dark_frames = (0 ∷ 0 ∷ 0 ∷ []) ∷ []

ramp-Plays : Plays 3 (generic ramp) ramp_frames
unfolding fill_masked
ramp-Plays = Generic-Plays ramp 3 10 (20 ∷ []) refl (omega arith)

solid-Plays : Plays 3 (generic solid) solid_frames
unfolding fill_masked
solid-Plays = Generic-Plays solid 3 7 (9 ∷ []) refl (omega arith)

dark-Plays : Plays 3 (generic dark) dark_frames
unfolding fill_masked
dark-Plays = Generic-Plays dark 3 0 [] refl (omega arith)

-- Amber that fades in two steps, and green that ends early.
abbrev amber : GenericRgb
amber = record {
  led_mask = 7;
  p_r = pattern_fn (255 ∷ 120 ∷ []) ∷ pattern_const 40 1 ∷ [];
  p_g = pattern_const 80 2 ∷ [];
  p_b = pattern_const 0 3 ∷ [];
  pattern_index = 0;
  id = 236;
}

GenericRgb-Plays_example :
    Plays 3 (generic_rgb amber) ((255 ∷ 80 ∷ 0 ∷ []) ∷ (120 ∷ 80 ∷ 0 ∷ []) ∷ (40 ∷ 0 ∷ 0 ∷ []) ∷ [])
GenericRgb-Plays_example = GenericRgb-Plays amber (omega arith) (omega arith)

run_few_shows_example :
    (end : Engine) × (exec_times 7 (dispatch (event_run_few (some 0) (some 1) (some 2) 2) engine)
      ≡ some (ramp_frames ++ (solid_frames ++ (solid_frames ++ dark_frames)), end))
    × HasStopped (0 ∷ 0 ∷ 0 ∷ []) end
unfolding initial_engine last
run_few_shows_example =
    run_few_shows engine (some 0) (some 2) 1 2 ramp_frames solid_frames dark_frames (omega arith)
      (omega arith) ramp-Plays solid-Plays dark-Plays

run_inf-finish_gently_example :
    (shown : Engine) × (exec_times 5 (dispatch (event_run_inf (some 0) (some 1) (some 2)) engine)
      ≡ some (ramp_frames ++ (solid_frames ++ ((7 ∷ 7 ∷ 7 ∷ []) ∷ [])), shown))
    × ((end : Engine) × (exec_times 2 (dispatch event_finish_gently shown)
          ≡ some ((9 ∷ 9 ∷ 9 ∷ []) ∷ (0 ∷ 0 ∷ 0 ∷ []) ∷ [], end))
        × HasStopped (0 ∷ 0 ∷ 0 ∷ []) end)
unfolding initial_engine last
run_inf-finish_gently_example =
    run_inf-finish_gently engine (some 0) (some 2) 1 1 ramp_frames ((7 ∷ 7 ∷ 7 ∷ []) ∷ [])
      (9 ∷ 9 ∷ 9 ∷ []) [] dark_frames ramp-Plays solid-Plays dark-Plays

abbrev calls : List Call
calls =
    call_run_inf none 1 (some 2)
    ∷ call_exec
    ∷ call_finish_gently
    ∷ call_exec
    ∷ call_finish
    ∷ call_exec
    ∷ []

do_calls-IsSafe_example : (end : Engine) × (do_calls calls engine ≡ some end) × IsSafe end
unfolding initial_engine
do_calls-IsSafe_example = do_calls-IsSafe calls engine (inl refl)

-- A double blink that is interrupted in its second half begins again there: reset keeps `cur_part`.
abbrev blink : DoubleBlink
blink = record { p = pattern_const 5 1 ∷ []; pattern_index = 0; cur_part = 0; id = 236 }

half_blinked : (step (double_blink blink) (1 ∷ 1 ∷ [])).leds ≡ 5 ∷ 0 ∷ []
unfolding step
half_blinked = refl

reset_keeps_half :
    (step (reset (step (double_blink blink) (1 ∷ 1 ∷ [])).object) (1 ∷ 1 ∷ [])).leds ≡ 0 ∷ 5 ∷ []
unfolding step reset
reset_keeps_half = refl
