-- ===== src/Power/State.antt =====
-- libs/power/power.h: `GlobalPowerState` for the power states of ux/system/system.h.
use mynd_firmware.Prelude.{Bool, true, false, Option, none, some, if◌then◌else◌}

-- `Teufel::Ux::System::PowerState`
pub data PowerState : Type 0 where
  off on pre_off pre_on transition : PowerState

abbrev pub is_same : PowerState → PowerState → Bool
is_same off off = true
is_same on on = true
is_same pre_off pre_off = true
is_same pre_on pre_on = true
is_same transition transition = true
is_same _ _ = false

-- `Teufel::Ux::System::PowerStateChangeReason`
pub data Reason : Type 0 where
  user_request off_timer battery_low_level battery_low_level_after_boot : Reason
  battery_critical_temperature broadcaster_power_off : Reason

-- `SetPowerState`
pub record SetPowerState : Type 0 where
  pub to : PowerState
  pub from : Option PowerState
  pub reason : Option Reason

-- The members of `GlobalPowerState`.
pub record GlobalPowerState : Type 0 where
  pub current : PowerState
  pub from : Option PowerState
  pub to : Option PowerState

-- `GlobalPowerState::set`
unfoldable pub set_state : PowerState → GlobalPowerState → GlobalPowerState
set_state ps g = if is_same ps g.current then g else record { current = ps; from = none; to = none }

-- `GlobalPowerState::setTransition` with a reason: the message, and the members.
unfoldable pub set_transition :
    PowerState → Reason → GlobalPowerState → SetPowerState × GlobalPowerState
set_transition to reason g = (
  record { to = to; from = some g.current; reason = some reason },
  record { current = transition; from = some g.current; to = some to },
)
