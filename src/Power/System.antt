-- ===== src/Power/System.antt =====
-- tasks/system/task_system.cpp: the handlers of the power states, the idle timer and the messages of the task.
-- Its effects are a list of what other parts are asked to do. The handlers wait for the other tasks; what these
-- answer is not looked at.
use mynd_firmware.Prelude.{
  ℕ, ◌*◌, List, ◌∷◌, Bool, true, false, not, ◌&&◌, Option, none, some, ltb, leb, ◌==◌,
  if◌then◌else◌,
}
use mynd_firmware.Prelude.Words.{get_ms_since}
use mynd_firmware.Power.State.{
  PowerState, off, on, pre_off, pre_on, transition, is_same, Reason, user_request, off_timer,
  SetPowerState, GlobalPowerState, set_state, set_transition,
}

-- What the task asks for.
pub data Effect : Type 0 where
  post_audio post_bluetooth : SetPowerState → Effect
  await_audio await_bluetooth delay : ℕ → Effect
  stop_multichain icon_power_off icon_power_on low_power_mode : Effect
  hold_on : Bool → Effect
  post_factory_reset_bluetooth post_factory_reset_audio post_hard_reset : Effect

-- The function that `s_system.power_state_fn` points to.
pub data Handler : Type 0 where
  power_state_on power_state_off : Handler

-- `p_power_state`, `s_system`, the two properties, and the effects, newest first.
pub record System : Type 0 where
  pub power_state : GlobalPowerState
  pub power_state_fn : Handler
  pub last_activity_timestamp : ℕ
  pub stream_inactive_timestamp : ℕ
  pub off_timer_minutes : ℕ
  pub off_timer_enabled : Bool
  pub effects : List Effect

-- What the task reads of the others.
pub record Surroundings : Type 0 where
  pub tick : ℕ
  pub is_multichain : Bool
  pub is_charger_active : Bool
  pub is_streaming : Bool
  pub is_dfu_mode : Bool

-- setTransition, and what is done with its message.
abbrev with_transition :
    PowerState → Reason → (SetPowerState → List Effect → List Effect) → System → System
with_transition to reason effect s =
    let next = set_transition to reason s.power_state in
    record s { power_state = next.1; effects = effect next.0 s.effects }

abbrev pub add : Effect → System → System
add effect s = record s { effects = effect ∷ s.effects }

-- The case of Off in power_state_on, up to the point at which both tasks have prepared.
unfoldable pub prepare_off : Reason → Surroundings → System → System
unfolding set_transition
prepare_off reason x s =
    let left = if x.is_multichain then add (delay 800) (add stop_multichain s) else s in
    let preparing =
      with_transition pre_off reason (λ msg es. delay 1000 ∷ await_audio 6000 ∷ post_audio msg ∷ es)
        left in
    let next = set_transition pre_off reason left.power_state in
    let sounding = elim reason as (λ r. System) [
      | off_timer ↦ preparing
      | _ ↦ add icon_power_off preparing
    ] in
    record sounding { effects = await_bluetooth 4000 ∷ post_bluetooth next.0 ∷ sounding.effects }

-- The rest of it: both tasks complete the power-off, and the supply is let go.
unfoldable pub complete_off : Reason → Surroundings → System → System
unfolding set_transition set_state
complete_off reason x s =
    let completed =
      with_transition off reason
        (λ msg es.
          await_bluetooth 5000 ∷ post_bluetooth msg ∷ await_audio 3000 ∷ post_audio msg ∷ es)
        s in
    let saving = if x.is_charger_active then completed else add low_power_mode completed in
    let released = add (hold_on false) saving in
    record released {
      power_state = set_state off released.power_state;
      power_state_fn = power_state_off;
    }

-- The case of On in power_state_off.
unfoldable pub switch_on : Reason → System → System
unfolding set_transition set_state
switch_on reason s =
    let held =
      with_transition pre_on reason (λ msg es. await_audio 200 ∷ post_audio msg ∷ hold_on true ∷ es)
        s in
    let completed =
      with_transition on reason
        (λ msg es.
          icon_power_on
          ∷ await_audio 3000
          ∷ post_audio msg
          ∷ await_bluetooth 4000
          ∷ post_bluetooth msg
          ∷ es)
        held in
    record completed {
      power_state = set_state on completed.power_state;
      power_state_fn = power_state_on;
    }

-- A call of the handler of the state, with the state to go to.
unfoldable pub call_handler : Handler → PowerState → Reason → Surroundings → System → System
call_handler power_state_on off reason x s = complete_off reason x (prepare_off reason x s)
call_handler power_state_on on reason x s = s
call_handler power_state_on pre_off reason x s = s
call_handler power_state_on pre_on reason x s = s
call_handler power_state_on transition reason x s = s
call_handler power_state_off on reason x s = switch_on reason s
call_handler power_state_off off reason x s = s
call_handler power_state_off pre_off reason x s = s
call_handler power_state_off pre_on reason x s = s
call_handler power_state_off transition reason x s = s

-- The time stamps of check_idle_timeout.
unfoldable pub stamp_stream : Surroundings → ℕ → ℕ
stamp_stream x stamp =
    let dfu = if x.is_dfu_mode then x.tick else stamp in
    let stopped = if not x.is_streaming && dfu == 0 then x.tick else dfu in
    if x.is_streaming then 0 else stopped

-- Its condition for the power-off.
unfoldable pub is_timed_out : Surroundings → System → Bool
is_timed_out x s =
    let timeout = s.off_timer_minutes * 60000 in
    is_same s.power_state.current on
    && (not x.is_streaming
        && (s.off_timer_enabled
            && (ltb timeout (get_ms_since x.tick s.last_activity_timestamp)
                && ltb timeout (get_ms_since x.tick s.stream_inactive_timestamp))))

-- check_idle_timeout
unfoldable pub check_idle_timeout : Surroundings → System → System
check_idle_timeout x s =
    let stamped = record s {
      stream_inactive_timestamp = stamp_stream x s.stream_inactive_timestamp;
    } in
    let switched = call_handler stamped.power_state_fn off off_timer x stamped in
    if is_timed_out x stamped then switched else stamped

-- The messages of the task.
pub data Message : Type 0 where
  set_power_state : PowerState → Option Reason → Message
  user_activity factory_reset_request : Message
  set_off_timer : ℕ → Message
  set_off_timer_enabled : Bool → Message

-- Its callback. A time that is out of the range of the property leaves it as it is.
unfoldable pub on_message : Message → Surroundings → System → System
on_message (set_power_state to none) x s = call_handler s.power_state_fn to user_request x s
on_message (set_power_state to (some reason)) x s = call_handler s.power_state_fn to reason x s
on_message user_activity x s = record s { last_activity_timestamp = x.tick }
on_message (set_off_timer minutes) x s =
    if leb minutes 254 then record s { off_timer_minutes = minutes } else s
on_message (set_off_timer_enabled enabled) x s = record s { off_timer_enabled = enabled }
on_message factory_reset_request x s = record s {
  off_timer_enabled = true;
  off_timer_minutes = 10;
  effects =
      post_hard_reset
      ∷ delay 1000
      ∷ post_factory_reset_audio
      ∷ post_factory_reset_bluetooth
      ∷ s.effects;
}
