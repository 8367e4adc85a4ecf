-- ===== src/Charge/Safety.antt =====
-- When the charger is enabled.
use mynd_firmware.Prelude.{
  ◌≡◌, ◌⊎◌, refl, sym, ap, ◌∙◌, ◌∷◌, [], List, Bool, true, false, not, ◌&&◌, All, Bool-cases, inl,
  inr, arith,
}
use mathlib.Core.Path.{subst}
use mynd_firmware.Charge.Controller.{
  ChargerStatus, active, inactive, not_connected, fault, LlCall, enable, disable, on_full_charge,
  Controller, Sample, reset_counters, while_not_connected, while_inactive, while_active,
  next_status, is_same, call_of, process, process_all, initial_controller,
}

-- Whether the last call that enables or disables the charger enables it.
pub is_enabled : List LlCall → Bool
is_enabled [] = false
is_enabled (enable bfc ∷ calls) = true
is_enabled (disable ∷ calls) = false
is_enabled (on_full_charge ∷ calls) = is_enabled calls

abbrev pub is_active : ChargerStatus → Bool
is_active active = true
is_active inactive = false
is_active not_connected = false
is_active fault = false

-- The charger is enabled while the status is active, and disabled while it is inactive.
abbrev pub IsApplied : ChargerStatus → List LlCall → Type 0
IsApplied active calls = is_enabled calls ≡ true
IsApplied inactive calls = is_enabled calls ≡ false
IsApplied not_connected calls = Unit
IsApplied fault calls = Unit

-- A case of the switch leaves the charger and the member with the status as they are.
abbrev Keeps : Controller → Controller → Type 0
Keeps c d = (is_enabled d.calls ≡ is_enabled c.calls) × (d.charger_status ≡ c.charger_status)

not_connected-Keeps : (x : Sample) (c : Controller) → Keeps c (while_not_connected x c).1
unfolding while_not_connected reset_counters
not_connected-Keeps x c = ground arith

inactive-Keeps : (x : Sample) (c : Controller) → Keeps c (while_inactive x c).1
unfolding while_inactive
inactive-Keeps x c = ground arith

active-Keeps : (x : Sample) (c : Controller) → Keeps c (while_active x c).1
unfolding while_active reset_counters is_enabled
active-Keeps x c = ground arith

next_status-Keeps :
    (st : ChargerStatus) (x : Sample) (c : Controller) → Keeps c (next_status st x c).1
unfolding next_status
next_status-Keeps active x c = active-Keeps x c
next_status-Keeps inactive x c = inactive-Keeps x c
next_status-Keeps not_connected x c = not_connected-Keeps x c
next_status-Keeps fault x c = (refl, refl)

IsApplied-eq :
    (st : ChargerStatus) (before after : List LlCall)
    → is_enabled after ≡ is_enabled before
    → IsApplied st before
    → IsApplied st after
IsApplied-eq active before after e h = e ∙ h
IsApplied-eq inactive before after e h = e ∙ h
IsApplied-eq not_connected before after e h = tt
IsApplied-eq fault before after e h = tt

call_of-IsApplied :
    (st : ChargerStatus) (bfc : Bool) (calls : List LlCall) → IsApplied st (call_of st bfc ∷ calls)
unfolding is_enabled
call_of-IsApplied active bfc calls = refl
call_of-IsApplied inactive bfc calls = refl
call_of-IsApplied not_connected bfc calls = tt
call_of-IsApplied fault bfc calls = tt

is_same-eq : (a b : ChargerStatus) → is_same a b ≡ true → a ≡ b
is_same-eq active active h = refl
is_same-eq inactive inactive h = refl
is_same-eq not_connected not_connected h = refl
is_same-eq fault fault h = refl
is_same-eq _ _ h = absurd (grind (arith, h))

-- A call leaves the status, or applies a new one.
process_cases :
    (x : Sample) (c : Controller)
    → let next = next_status c.charger_status x c in
      ((process x c ≡ next.1) × (next.0 ≡ c.charger_status))
      ⊎ (process x c ≡ record next.1 {
        charger_status = next.0;
        calls = call_of next.0 x.bfc_enabled ∷ next.1.calls;
      })
unfolding process next_status
process_cases x c =
    let next = next_status c.charger_status x c in
    elim (Bool-cases (is_same next.0 c.charger_status)) [
      | inl e ↦ inl (rw (e, process) refl, is_same-eq next.0 c.charger_status e)
      | inr e ↦ inr (rw (e, process) refl)
    ]

process-IsApplied :
    (x : Sample) (c : Controller)
    → IsApplied c.charger_status c.calls
    → IsApplied (process x c).charger_status (process x c).calls
process-IsApplied x c h =
    let next = next_status c.charger_status x c in
    let k = next_status-Keeps c.charger_status x c in
    elim (process_cases x c) [
      | inl (e, same) ↦
          subst (λ d. IsApplied d.charger_status d.calls) (sym e)
            (subst (λ st. IsApplied st next.1.calls) (sym k.1)
              (IsApplied-eq c.charger_status c.calls next.1.calls k.0 h))
      | inr e ↦
          subst (λ d. IsApplied d.charger_status d.calls) (sym e)
            (call_of-IsApplied next.0 x.bfc_enabled next.1.calls)
    ]

process_all-IsApplied :
    (samples : List Sample) (c : Controller)
    → IsApplied c.charger_status c.calls
    → IsApplied (process_all samples c).charger_status (process_all samples c).calls
unfolding process_all
process_all-IsApplied [] c h = h
process_all-IsApplied (x ∷ samples) c h =
    process_all-IsApplied samples (process x c) (process-IsApplied x c h)

next_allowed :
    (st : ChargerStatus) (x : Sample) (c : Controller)
    → is_active (next_status st x c).0 && not (x.ac_plugged && x.charger_ntc_allowed) ≡ false
unfolding next_status while_not_connected while_inactive while_active
next_allowed active x c = ground arith
next_allowed inactive x c = ground arith
next_allowed not_connected x c = ground arith
next_allowed fault x c = refl

-- The status behind a call is the one that the switch gives.
pub process_status :
    (x : Sample) (c : Controller)
    → (process x c).charger_status ≡ (next_status c.charger_status x c).0
process_status x c = elim (process_cases x c) [
  | inl (e, same) ↦
      ap (λ d. d.charger_status) e ∙ (next_status-Keeps c.charger_status x c).1 ∙ sym same
  | inr e ↦ ap (λ d. d.charger_status) e
]

-- The status is active behind a call only if the supply is plugged in and the temperature allows it.
pub active_allowed :
    (x : Sample) (c : Controller)
    → is_active (process x c).charger_status && not (x.ac_plugged && x.charger_ntc_allowed) ≡ false
active_allowed x c =
    ap (λ st. is_active st && not (x.ac_plugged && x.charger_ntc_allowed)) (process_status x c)
    ∙ next_allowed c.charger_status x c

-- Whatever samples the controller is given from its construction on, the last call that enables or disables
-- the charger disables it while the status is inactive, and enables it while it is active; and the status is
-- active only if the supply was plugged in and the temperature allowed at the last sample.
pub controller-IsApplied :
    (samples : List Sample) (x : Sample)
    → let c = process x (process_all samples initial_controller) in
      IsApplied c.charger_status c.calls
      × (is_active c.charger_status && not (x.ac_plugged && x.charger_ntc_allowed) ≡ false)
controller-IsApplied samples x =
    let c = process_all samples initial_controller in
    (
      process-IsApplied x c (process_all-IsApplied samples initial_controller tt),
      active_allowed x c,
    )

-- Plugged in, but with a battery too hot or too cold to be charged.
abbrev pub IsForbidden : Sample → Type 0
IsForbidden x = (x.ac_plugged ≡ true) × (x.charger_ntc_allowed ≡ false)

stays_not_connected :
    (x : Sample) (c : Controller)
    → IsForbidden x
    → c.charger_status ≡ not_connected
    → process x c ≡ c
unfolding process next_status while_not_connected
stays_not_connected x c h e = rw (e, h.0, h.1, process) refl

forbidden_stays :
    (samples : List Sample) (c : Controller)
    → All IsForbidden samples
    → c.charger_status ≡ not_connected
    → process_all samples c ≡ c
unfolding process_all
forbidden_stays [] c h e = refl
forbidden_stays (x ∷ samples) c h e =
    let one = stays_not_connected x c h.0 e in
    ap (process_all samples) one ∙ forbidden_stays samples c h.1 e

unplugged_lem :
    (c : Controller) (x : Sample)
    → (c.charger_status ≡ active) ⊎ (c.charger_status ≡ inactive)
    → x.ac_plugged ≡ false
    → process x c
      ≡ record c { charger_status = not_connected; calls = enable x.bfc_enabled ∷ c.calls }
unfolding process next_status while_inactive while_active
unplugged_lem c x (inl e) off = rw (e, off, process) refl
unplugged_lem c x (inr e) off = rw (e, off, process) refl

-- If the supply is unplugged while the status is active or inactive, and plugged in again while the
-- temperature does not allow the battery to be charged, the charger is enabled as long as that lasts, though
-- the status is that of a supply that is not connected.
pub enabled_while_forbidden :
    (c : Controller) (unplugged : Sample) (samples : List Sample)
    → (c.charger_status ≡ active) ⊎ (c.charger_status ≡ inactive)
    → unplugged.ac_plugged ≡ false
    → All IsForbidden samples
    → let d = process_all samples (process unplugged c) in
      (d.charger_status ≡ not_connected) × (is_enabled d.calls ≡ true)
unfolding is_enabled
enabled_while_forbidden c unplugged samples connected off forbidden =
    let e = unplugged_lem c unplugged connected off in
    let stay =
      forbidden_stays samples (process unplugged c) forbidden (ap (λ d. d.charger_status) e) ∙ e in
    (ap (λ d. d.charger_status) stay, ap (λ d. is_enabled d.calls) stay ∙ refl)
