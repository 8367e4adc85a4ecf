-- ===== src/Power/Safety.antt =====
-- The state of the system task between two calls of its thread.
use mynd_firmware.Prelude.{
  ℕ, zero, suc, ◌≡◌, ◌⊎◌, refl, ap, ◌∙◌, List, [], ◌∷◌, Bool, true, false, none, some,
  if◌then◌else◌, inl, inr, arith, leb,
}
use mynd_firmware.Power.State.{
  PowerState, off, on, pre_off, pre_on, transition, Reason, user_request, off_timer,
  battery_low_level, battery_low_level_after_boot, battery_critical_temperature,
  broadcaster_power_off, set_state, set_transition,
}
use mynd_firmware.Power.System.{
  System, Surroundings, Effect, post_audio, post_bluetooth, await_audio, await_bluetooth, delay,
  stop_multichain, icon_power_off, icon_power_on, low_power_mode, hold_on,
  post_factory_reset_bluetooth, post_factory_reset_audio, post_hard_reset, Handler, power_state_on,
  power_state_off, prepare_off, complete_off, switch_on, call_handler, check_idle_timeout,
  is_timed_out, stamp_stream, Message, set_power_state, user_activity, factory_reset_request,
  set_off_timer, set_off_timer_enabled, on_message,
}

-- The requests to hold the power supply, or to let it go, newest first.
unfoldable pub requests : List Effect → List Bool
requests [] = []
requests (hold_on b ∷ effects) = b ∷ requests effects
requests (post_audio m ∷ effects) = requests effects
requests (post_bluetooth m ∷ effects) = requests effects
requests (await_audio n ∷ effects) = requests effects
requests (await_bluetooth n ∷ effects) = requests effects
requests (delay n ∷ effects) = requests effects
requests (stop_multichain ∷ effects) = requests effects
requests (icon_power_off ∷ effects) = requests effects
requests (icon_power_on ∷ effects) = requests effects
requests (low_power_mode ∷ effects) = requests effects
requests (post_factory_reset_bluetooth ∷ effects) = requests effects
requests (post_factory_reset_audio ∷ effects) = requests effects
requests (post_hard_reset ∷ effects) = requests effects

-- A number of pairs of a request to hold and one to let go, behind those made before.
unfoldable pub cycles : ℕ → List Bool → List Bool
cycles zero before = before
cycles (suc n) before = false ∷ true ∷ cycles n before

-- On, with a request to hold behind a number of such pairs; or off, with the pairs alone.
abbrev pub IsSettled : List Bool → System → Type 0
IsSettled before s =
    (n : ℕ) × (((s.power_state_fn ≡ power_state_on)
        × (s.power_state.current ≡ on)
        × (requests s.effects ≡ true ∷ cycles n before))
      ⊎ ((s.power_state_fn ≡ power_state_off)
          × (s.power_state.current ≡ off)
          × (requests s.effects ≡ cycles n before)))

requests-prepare_off :
    (reason : Reason) (x : Surroundings) (s : System)
    → requests (prepare_off reason x s).effects ≡ requests s.effects
unfolding prepare_off requests set_transition
requests-prepare_off user_request x s = ground arith
requests-prepare_off off_timer x s = ground arith
requests-prepare_off battery_low_level x s = ground arith
requests-prepare_off battery_low_level_after_boot x s = ground arith
requests-prepare_off battery_critical_temperature x s = ground arith
requests-prepare_off broadcaster_power_off x s = ground arith

requests-complete_off :
    (reason : Reason) (x : Surroundings) (s : System)
    → requests (complete_off reason x s).effects ≡ false ∷ requests s.effects
unfolding complete_off requests set_transition
requests-complete_off reason x s = ground arith

switched_off :
    (before : List Bool) (reason : Reason) (x : Surroundings) (s : System) (n : ℕ)
    → requests s.effects ≡ true ∷ cycles n before
    → IsSettled before (complete_off reason x (prepare_off reason x s))
unfolding complete_off set_state set_transition cycles
switched_off before reason x s n e = (
  suc n,
  inr (
    refl,
    ground arith,
    requests-complete_off reason x (prepare_off reason x s)
        ∙ ap (λ l. false ∷ l) (requests-prepare_off reason x s ∙ e),
  ),
)

switched_on :
    (before : List Bool) (reason : Reason) (s : System) (n : ℕ)
    → requests s.effects ≡ cycles n before
    → IsSettled before (switch_on reason s)
unfolding switch_on set_state set_transition requests
switched_on before reason s n e = (n, inl (refl, refl, ap (λ l. true ∷ l) e))

-- One call of a thread: a look at the idle timer, or a message.
pub data Step (s : System) : System → Type 0 where
  idle : (x : Surroundings) → Step s (check_idle_timeout x s)
  message : (m : Message) (x : Surroundings) → Step s (on_message m x s)

pub data Reach (s : System) : System → Type 0 where
  here : Reach s s
  next : {t u : System} → Reach s t → Step t u → Reach s u

module _ (before : List Bool) where
  handler_settles :
      (fn : Handler) (to : PowerState) (reason : Reason) (x : Surroundings) (s : System)
      → s.power_state_fn ≡ fn
      → IsSettled before s
      → IsSettled before (call_handler fn to reason x s)
  unfolding call_handler
  handler_settles power_state_on off reason x s f (n, inl h) = switched_off before reason x s n h.2
  handler_settles power_state_on off reason x s f (n, inr h) = absurd (cc (f, h.0))
  handler_settles power_state_on on reason x s f h = h
  handler_settles power_state_on pre_off reason x s f h = h
  handler_settles power_state_on pre_on reason x s f h = h
  handler_settles power_state_on transition reason x s f h = h
  handler_settles power_state_off on reason x s f (n, inl h) = absurd (cc (f, h.0))
  handler_settles power_state_off on reason x s f (n, inr h) = switched_on before reason s n h.2
  handler_settles power_state_off off reason x s f h = h
  handler_settles power_state_off pre_off reason x s f h = h
  handler_settles power_state_off pre_on reason x s f h = h
  handler_settles power_state_off transition reason x s f h = h

  choose_settled :
      (a b : System) (c : Bool)
      → IsSettled before a
      → IsSettled before b
      → IsSettled before (if c then a else b)
  choose_settled a b true h k = h
  choose_settled a b false h k = k

  idle_settles :
      (x : Surroundings) (s : System)
      → IsSettled before s
      → IsSettled before (check_idle_timeout x s)
  unfolding check_idle_timeout
  idle_settles x s h =
      let stamped = record s {
        stream_inactive_timestamp = stamp_stream x s.stream_inactive_timestamp;
      } in
      choose_settled (call_handler stamped.power_state_fn off off_timer x stamped) stamped
        (is_timed_out x stamped)
        (handler_settles stamped.power_state_fn off off_timer x stamped refl h) h

  message_settles :
      (m : Message) (x : Surroundings) (s : System)
      → IsSettled before s
      → IsSettled before (on_message m x s)
  unfolding on_message requests
  message_settles (set_power_state to none) x s h =
      handler_settles s.power_state_fn to user_request x s refl h
  message_settles (set_power_state to (some reason)) x s h =
      handler_settles s.power_state_fn to reason x s refl h
  message_settles user_activity x s h = h
  message_settles (set_off_timer minutes) x s h =
      choose_settled (record s { off_timer_minutes = minutes }) s (leb minutes 254) h h
  message_settles (set_off_timer_enabled enabled) x s h = h
  message_settles factory_reset_request x s h = h

  Step-IsSettled : {s t : System} → Step s t → IsSettled before s → IsSettled before t
  Step-IsSettled {s} (idle x) h = idle_settles x s h
  Step-IsSettled {s} (message m x) h = message_settles m x s h

  -- Whatever messages and idle calls come, in whatever order and surroundings, from a state that is settled: between
  -- two calls the power state is never in transition, and it is On with the handler of On, or Off with the handler
  -- of Off. Behind the requests to the power supply that were made before, those to hold it and to let it go
  -- alternate, beginning with one to hold: the last one is to hold while the state is On, and while it is Off it is
  -- to let go, or none has been made.
  pub Reach-IsSettled : {s t : System} → Reach s t → IsSettled before s → IsSettled before t
  Reach-IsSettled here h = h
  Reach-IsSettled (next r st) h = Step-IsSettled st (Reach-IsSettled r h)
