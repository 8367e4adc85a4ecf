-- ===== src/Core/Monitor.antt =====
-- core_utils/monitor.h: `Monitor<T>`, which reads a value from time to time and reports its changes. A call
-- reads everything at one tick, and on_change is given. memcmp over the bytes of two values is a parameter.
use mynd_firmware.Prelude.{
  ℕ, ◌≡◌, ◌≢◌, refl, ◌∙◌, Bool-cases, inl, inr, List, [], ◌∷◌, Bool, true, false, not, ◌&&◌, Option,
  none, some, leb, ltb, ◌==◌, if◌then◌else◌, arith,
}
use mathlib.Core.Path.{subst}
use mynd_firmware.Prelude.Words.{get_ms_since}

-- The arguments of the constructor.
pub record Settings : Type 0 where
  pub period_ms : ℕ
  pub pause_after_change : ℕ

-- The members that change, and the calls of on_change, newest first.
pub record Monitor {ℓ} (T : Type ℓ) : Type ℓ where
  pub is_running : Bool
  pub value : Option T
  pub last_tick_ms : ℕ
  pub last_change_tick_ms : ℕ
  pub delay_after_start_ms : ℕ
  pub has_predicate : Bool
  pub changes : List (T × T)

-- What a call reads: the tick, the predicate, and the value.
pub record Sampled {ℓ} (T : Type ℓ) : Type ℓ where
  pub tick : ℕ
  pub predicate : Bool
  pub got : Option T

module _ {ℓ} {T : Type ℓ} where
  -- `Monitor::start_internal`
  unfoldable pub start_internal : ℕ → Option T → ℕ → Bool → Monitor T → Monitor T
  start_internal tick initial_value delay_ms has_predicate m =
      if m.is_running then m else record m {
        last_tick_ms = tick;
        is_running = true;
        value = initial_value;
        delay_after_start_ms = delay_ms;
        has_predicate = has_predicate;
      }

  -- `Monitor::stop`
  unfoldable pub stop_monitor : Monitor T → Monitor T
  stop_monitor m = record m {
    last_tick_ms = 0;
    is_running = false;
    value = none;
    delay_after_start_ms = 0;
    has_predicate = false;
  }

  -- A value that was read, after the value before.
  unfoldable pub compare : (T → T → Bool) → ℕ → Option T → T → Monitor T → Monitor T
  compare same tick none v m = record m { value = some v; changes = (v, v) ∷ m.changes }
  compare same tick (some old) v m =
      if same old v
      then m
      else record m { value = some v; last_change_tick_ms = tick; changes = (old, v) ∷ m.changes }

  unfoldable pub take_value : (T → T → Bool) → ℕ → Option T → Monitor T → Monitor T
  take_value same tick none m = m
  take_value same tick (some v) m = compare same tick m.value v m

  -- The reading of the value.
  unfoldable pub query : (T → T → Bool) → Sampled T → Monitor T → Monitor T
  unfolding take_value
  query same x m = take_value same x.tick x.got (record m { last_tick_ms = x.tick })

  -- The end of `Monitor::operator()`, behind the delay.
  unfoldable pub query_in_time : (T → T → Bool) → Settings → Sampled T → Monitor T → Monitor T
  unfolding query
  query_in_time same c x m =
      let paused = get_ms_since x.tick m.last_change_tick_ms in
      if not (c.pause_after_change == 0) && leb c.pause_after_change paused
      then m
      else if leb c.period_ms (get_ms_since x.tick m.last_tick_ms)
          && leb c.pause_after_change paused
      then query same x m
      else m

  -- `Monitor::operator()`
  unfoldable pub call_monitor : (T → T → Bool) → Settings → Sampled T → Monitor T → Monitor T
  unfolding query_in_time
  call_monitor same c x m =
      let met = record m { has_predicate = false } in
      let waiting = ltb (get_ms_since x.tick m.last_tick_ms) m.delay_after_start_ms in
      let ready = query_in_time same c x (record met { delay_after_start_ms = 0 }) in
      if not m.is_running
      then m
      else if m.has_predicate && not x.predicate
      then m
      else if not (m.delay_after_start_ms == 0) && waiting
      then met
      else ready

  -- Calls, in order.
  unfoldable pub call_all : (T → T → Bool) → Settings → List (Sampled T) → Monitor T → Monitor T
  call_all same c [] m = m
  call_all same c (x ∷ xs) m = call_all same c xs (call_monitor same c x m)

  -- With a pause, the value is not read: before the end of the pause by the one condition, and then by the other.
  paused_query :
      (same : T → T → Bool) (c : Settings) (x : Sampled T) (m : Monitor T)
      → c.pause_after_change ≢ 0
      → query_in_time same c x m ≡ m
  unfolding query_in_time
  paused_query same c x m paused = ground arith

  record Keeps (m n : Monitor T) : Type ℓ where
    same_value : n.value ≡ m.value
    same_changes : n.changes ≡ m.changes

  paused_call :
      (same : T → T → Bool) (c : Settings) (x : Sampled T) (m : Monitor T)
      → c.pause_after_change ≢ 0
      → Keeps m (call_monitor same c x m)
  unfolding call_monitor
  paused_call same c x m paused =
      rw
        (paused_query same c x (record m { has_predicate = false; delay_after_start_ms = 0 })
          paused)
        record { same_value = ground arith; same_changes = ground arith }

  -- Whatever is read, and at whatever ticks: a monitor with a pause after changes that is not 0 never reads its
  -- value, and reports no change.
  paused_monitor_is_blind :
      (same : T → T → Bool) (c : Settings) (xs : List (Sampled T)) (m : Monitor T)
      → c.pause_after_change ≢ 0
      → ((call_all same c xs m).value ≡ m.value) × ((call_all same c xs m).changes ≡ m.changes)
  unfolding call_all
  paused_monitor_is_blind same c [] m paused = (refl, refl)
  paused_monitor_is_blind same c (x ∷ xs) m paused =
      let k = paused_call same c x m paused in
      let rest = paused_monitor_is_blind same c xs (call_monitor same c x m) paused in
      (rest.0 ∙ k.same_value, rest.1 ∙ k.same_changes)

  -- The changes are those of one value: the first is reported with itself, and each later one with the value
  -- before it, which differs.
  pub data Follows (same : T → T → Bool) : List (T × T) → Option T → Type ℓ where
    started : (o : Option T) → Follows same [] o
    first :
        {log : List (T × T)} (v : T) → Follows same log none → Follows same ((v, v) ∷ log) (some v)
    changed :
        {log : List (T × T)} (a b : T)
        → same a b ≡ false
        → Follows same log (some a)
        → Follows same ((a, b) ∷ log) (some b)

  compare-Follows :
      (same : T → T → Bool) (tick : ℕ) (o : Option T) (v : T) (m : Monitor T)
      → m.value ≡ o
      → Follows same m.changes m.value
      → Follows same (compare same tick o v m).changes (compare same tick o v m).value
  unfolding compare
  compare-Follows same tick none v m e h = first v (subst (Follows same m.changes) e h)
  compare-Follows same tick (some old) v m e h = elim (Bool-cases (same old v)) [
    | inl k ↦ rw (k) h
    | inr k ↦ rw (k) (changed old v k (subst (Follows same m.changes) e h))
  ]

  take_value-Follows :
      (same : T → T → Bool) (tick : ℕ) (o : Option T) (m : Monitor T)
      → Follows same m.changes m.value
      → Follows same (take_value same tick o m).changes (take_value same tick o m).value
  unfolding take_value
  take_value-Follows same tick none m h = h
  take_value-Follows same tick (some v) m h = compare-Follows same tick m.value v m refl h

  choose-Follows :
      (same : T → T → Bool) (a b : Monitor T) (c : Bool)
      → Follows same a.changes a.value
      → Follows same b.changes b.value
      → Follows same (if c then a else b).changes (if c then a else b).value
  choose-Follows same a b true h k = h
  choose-Follows same a b false h k = k

  query_in_time-Follows :
      (same : T → T → Bool) (c : Settings) (x : Sampled T) (m : Monitor T)
      → Follows same m.changes m.value
      → Follows same (query_in_time same c x m).changes (query_in_time same c x m).value
  unfolding query_in_time query
  query_in_time-Follows same c x m h =
      let paused = get_ms_since x.tick m.last_change_tick_ms in
      let due =
        leb c.period_ms (get_ms_since x.tick m.last_tick_ms) && leb c.pause_after_change paused in
      choose-Follows same m (if due then query same x m else m)
        (not (c.pause_after_change == 0) && leb c.pause_after_change paused) h
        (choose-Follows same (query same x m) m due
          (take_value-Follows same x.tick x.got (record m { last_tick_ms = x.tick }) h) h)

  call_monitor-Follows :
      (same : T → T → Bool) (c : Settings) (x : Sampled T) (m : Monitor T)
      → Follows same m.changes m.value
      → Follows same (call_monitor same c x m).changes (call_monitor same c x m).value
  unfolding call_monitor
  call_monitor-Follows same c x m h =
      let met = record m { has_predicate = false } in
      let ready = query_in_time same c x (record met { delay_after_start_ms = 0 }) in
      let late =
        not (m.delay_after_start_ms == 0)
        && ltb (get_ms_since x.tick m.last_tick_ms) m.delay_after_start_ms in
      let unmet = m.has_predicate && not x.predicate in
      let begun = if late then met else ready in
      choose-Follows same m (if unmet then m else begun) (not m.is_running) h (
        choose-Follows same m begun unmet h (
          choose-Follows same met ready late h
            (query_in_time-Follows same c x (record met { delay_after_start_ms = 0 }) h)))

  -- Whatever is read, and at whatever ticks: the changes that a monitor reports are those of one value, which is
  -- the value that it has.
  call_all-Follows :
      (same : T → T → Bool) (c : Settings) (xs : List (Sampled T)) (m : Monitor T)
      → Follows same m.changes m.value
      → Follows same (call_all same c xs m).changes (call_all same c xs m).value
  unfolding call_all
  call_all-Follows same c [] m h = h
  call_all-Follows same c (x ∷ xs) m h =
      call_all-Follows same c xs (call_monitor same c x m) (call_monitor-Follows same c x m h)
