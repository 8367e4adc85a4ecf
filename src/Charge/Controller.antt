-- ===== src/Charge/Controller.antt =====
-- charge_controller.h and charge_controller.cpp: the counters and ChargeController. A call reads the tick at
-- most once, in the one counter that it consults, so the tick is an argument.
use mynd_firmware.Prelude.{
  ℕ, ◌∷◌, [], List, Bool, true, false, not, ◌&&◌, Option, none, some, ltb, leb, if◌then◌else◌,
}
use mynd_firmware.Prelude.Words.{get_ms_since}
use mynd_firmware.Prelude.Int.{ℤ, pos, negsuc}

-- `Teufel::Ux::System::ChargerStatus`
pub data ChargerStatus : Type 0 where
  active inactive not_connected fault : ChargerStatus

-- The calls of `IChargerLLController`.
pub data LlCall : Type 0 where
  enable : Bool → LlCall
  disable on_full_charge : LlCall

-- The members of ChargeController, a counter being its time stamp, and the calls made so far, newest first.
pub record Controller : Type 0 where
  pub charger_status : ChargerStatus
  pub battery_below_7900mv : Option ℕ
  pub battery_below_8100mv : Option ℕ
  pub battery_current_below_500ma : Option ℕ
  pub calls : List LlCall

-- What a call of `process` is given, and the tick.
pub record Sample : Type 0 where
  pub battery_voltage_mv : ℕ
  pub battery_current_ma : ℤ
  pub charger_ntc_allowed : Bool
  pub ac_plugged : Bool
  pub bfc_enabled : Bool
  pub tick : ℕ

-- The constructor.
abbrev pub initial_controller : Controller
initial_controller = record {
  charger_status = not_connected;
  battery_below_7900mv = none;
  battery_below_8100mv = none;
  battery_current_below_500ma = none;
  calls = disable ∷ [];
}

-- `Counter::operator()` for a value that is above the threshold or not: the result, and the time stamp.
unfoldable pub count : Bool → ℕ → Option ℕ → Bool × Option ℕ
count true tick last_match = (false, none)
count false tick none = (false, some tick)
count false tick (some t) = (ltb 5000 (get_ms_since tick t), some t)

-- `value > 500`
abbrev pub above_500ma : ℤ → Bool
above_500ma (pos n) = ltb 500 n
above_500ma (negsuc n) = false

unfoldable pub reset_counters : Controller → Controller
reset_counters c = record c {
  battery_below_7900mv = none;
  battery_below_8100mv = none;
  battery_current_below_500ma = none;
}

-- The cases of the switch: the new status, and the members.
unfoldable pub while_not_connected : Sample → Controller → ChargerStatus × Controller
while_not_connected x c =
    if x.ac_plugged && x.charger_ntc_allowed
    then (inactive, reset_counters c)
    else (not_connected, c)

unfoldable pub while_inactive : Sample → Controller → ChargerStatus × Controller
while_inactive x c =
    let low = count (ltb 7900 x.battery_voltage_mv) x.tick c.battery_below_7900mv in
    let high = count (ltb 8100 x.battery_voltage_mv) x.tick c.battery_below_8100mv in
    if not x.ac_plugged
    then (not_connected, c)
    else if not x.charger_ntc_allowed
    then (inactive, c)
    else if x.bfc_enabled
    then (if low.0 then active else inactive, record c { battery_below_7900mv = low.1 })
    else (if high.0 then active else inactive, record c { battery_below_8100mv = high.1 })

unfoldable pub while_active : Sample → Controller → ChargerStatus × Controller
while_active x c =
    let checked = if x.charger_ntc_allowed then c else reset_counters c in
    let current =
      count (above_500ma x.battery_current_ma) x.tick checked.battery_current_below_500ma in
    let counted = record checked { battery_current_below_500ma = current.1 } in
    let full = if x.bfc_enabled then 8150 else 8350 in
    if not x.ac_plugged
    then (not_connected, c)
    else if current.0 && leb full x.battery_voltage_mv
    then (inactive, record (reset_counters counted) { calls = on_full_charge ∷ c.calls })
    else (if x.charger_ntc_allowed then active else inactive, counted)

unfoldable pub next_status : ChargerStatus → Sample → Controller → ChargerStatus × Controller
next_status not_connected x c = while_not_connected x c
next_status inactive x c = while_inactive x c
next_status active x c = while_active x c
next_status fault x c = (fault, c)

abbrev pub is_same : ChargerStatus → ChargerStatus → Bool
is_same active active = true
is_same inactive inactive = true
is_same not_connected not_connected = true
is_same fault fault = true
is_same _ _ = false

-- The call that applies a status.
abbrev pub call_of : ChargerStatus → Bool → LlCall
call_of active bfc_enabled = enable bfc_enabled
call_of inactive bfc_enabled = disable
call_of not_connected bfc_enabled = enable bfc_enabled
call_of fault bfc_enabled = enable bfc_enabled

-- The controller after a call; the result is its status.
unfoldable pub process : Sample → Controller → Controller
process x c =
    let next = next_status c.charger_status x c in
    if is_same next.0 c.charger_status then next.1 else record next.1 {
      charger_status = next.0;
      calls = call_of next.0 x.bfc_enabled ∷ next.1.calls;
    }

-- One sample after the other.
unfoldable pub process_all : List Sample → Controller → Controller
process_all [] c = c
process_all (x ∷ samples) c = process_all samples (process x c)
