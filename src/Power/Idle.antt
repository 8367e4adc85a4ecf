-- ===== src/Power/Idle.antt =====
-- The power-off by the idle timer of the system task.
use mynd_firmware.Prelude.{
  ℕ, ◌*◌, ◌≡◌, ◌≢◌, ◌<◌, ◌⊎◌, refl, sym, ap, ◌∙◌, List, [], ◌∷◌, ◌++◌, true, false, All, ◌==◌,
  Bool-cases, inl, inr, arith,
}
use mathlib.Core.Path.{subst}
use mynd_firmware.Prelude.Words.{get_ms_since}
use mynd_firmware.Power.System.{
  System, Surroundings, power_state_on, power_state_off, check_idle_timeout, is_timed_out,
  stamp_stream,
}

-- The time stamp behind idle calls, newest first.
unfoldable pub stamp_after : List Surroundings → ℕ
stamp_after [] = 0
stamp_after (x ∷ calls) = stamp_stream x (stamp_after calls)

-- Nothing has been streamed at the idle calls since one at a tick.
pub record IsQuietSince (t : ℕ) (calls : List Surroundings) : Type 0 where
  pub newer : List Surroundings
  pub first : Surroundings
  pub older : List Surroundings
  pub is_split : calls ≡ newer ++ (first ∷ older)
  pub at_tick : first.tick ≡ t
  pub quiet : first.is_streaming ≡ false
  pub quiet_since : All (λ (x : Surroundings). x.is_streaming ≡ false) newer

-- What one call does to the stamp.
stamp_cases :
    (x : Surroundings) (stamp : ℕ)
    → stamp_stream x stamp ≢ 0
    → (x.is_streaming ≡ false)
      × ((stamp_stream x stamp ≡ x.tick) ⊎ ((stamp_stream x stamp ≡ stamp) × (stamp ≢ 0)))
unfolding stamp_stream
stamp_cases x stamp h = elim (Bool-cases x.is_streaming) [
  | inl s ↦ absurd (h (rw (s) refl))
  | inr s ↦ elim (Bool-cases x.is_dfu_mode) [
    | inl d ↦ (s, inl (ground (arith, s, d)))
    | inr d ↦ elim (Bool-cases (stamp == 0)) [
      | inl z ↦ (s, inl (ground (arith, s, d, z)))
      | inr z ↦ (s, inr (ground (arith, s, d, z), λ (e : stamp ≡ 0). absurd (ground (arith, e, z))))
    ]
  ]
]

stamp-IsQuietSince :
    (calls : List Surroundings) → stamp_after calls ≢ 0 → IsQuietSince (stamp_after calls) calls
unfolding stamp_after
stamp-IsQuietSince [] h = absurd (h refl)
stamp-IsQuietSince (x ∷ calls) h =
    let c = stamp_cases x (stamp_after calls) h in
    elim c.1 [
      | inl e ↦ record {
        newer = [];
        first = x;
        older = calls;
        is_split = refl;
        at_tick = sym e;
        quiet = c.0;
        quiet_since = tt;
      }
      | inr (e, k) ↦
          (let before = stamp-IsQuietSince calls k in
            record {
              newer = x ∷ before.newer;
              first = before.first;
              older = before.older;
              is_split = ap (λ l. x ∷ l) before.is_split;
              at_tick = before.at_tick ∙ sym e;
              quiet = before.quiet;
              quiet_since = (c.0, before.quiet_since);
            })
    ]

zero_stamp :
    (x : Surroundings) (stamp : ℕ) → x.is_streaming ≡ false → stamp_stream x stamp ≡ 0 → x.tick ≡ 0
unfolding stamp_stream
zero_stamp x stamp s e = elim (Bool-cases x.is_dfu_mode) [
  | inl d ↦ ground (arith, s, d, e)
  | inr d ↦ ground (arith, s, d, e)
]

since_zero : (now : ℕ) → get_ms_since now 0 ≡ now
unfolding get_ms_since
since_zero now = ground arith

-- The parts of the condition.
timed_out_parts :
    (x : Surroundings) (s : System)
    → is_timed_out x s ≡ true
    → (x.is_streaming ≡ false)
      × (s.off_timer_enabled ≡ true)
      × (s.off_timer_minutes * 60000 < get_ms_since x.tick s.last_activity_timestamp)
      × (s.off_timer_minutes * 60000 < get_ms_since x.tick s.stream_inactive_timestamp)
unfolding is_timed_out
timed_out_parts x s h = ground (arith, h)

abbrev stamped : Surroundings → System → System
stamped x s = record s { stream_inactive_timestamp = stamp_stream x s.stream_inactive_timestamp }

timed_out_of :
    (x : Surroundings) (s : System)
    → s.power_state_fn ≡ power_state_on
    → (check_idle_timeout x s).power_state_fn ≡ power_state_off
    → is_timed_out x (stamped x s) ≡ true
unfolding check_idle_timeout
timed_out_of x s h e = elim (Bool-cases (is_timed_out x (stamped x s))) [
  | inl k ↦ k
  | inr k ↦ absurd (cc (rw k at e))
]

-- If an idle call switches the speaker off, the stamp of the stream being that of the idle calls before: the
-- timer is enabled, the last activity is more than the minutes of the timer ago, and so is an idle call since
-- which nothing has been streamed at any of them, this one included.
pub idle_power_off_waits :
    (calls : List Surroundings) (x : Surroundings) (s : System)
    → s.power_state_fn ≡ power_state_on
    → s.stream_inactive_timestamp ≡ stamp_after calls
    → (check_idle_timeout x s).power_state_fn ≡ power_state_off
    → (s.off_timer_enabled ≡ true)
      × (s.off_timer_minutes * 60000 < get_ms_since x.tick s.last_activity_timestamp)
      × ((t : ℕ) × IsQuietSince t (x ∷ calls)
          × (s.off_timer_minutes * 60000 < get_ms_since x.tick t))
unfolding stamp_after
idle_power_off_waits calls x s h same e =
    let parts = timed_out_parts x (stamped x s) (timed_out_of x s h e) in
    let late : s.off_timer_minutes * 60000
        < get_ms_since x.tick (stamp_stream x (stamp_after calls)) =
      subst (λ t. s.off_timer_minutes * 60000 < get_ms_since x.tick (stamp_stream x t)) same
        parts.3 in
    let nonzero : stamp_stream x (stamp_after calls) ≢ 0 = λ z.
      (let tick = zero_stamp x (stamp_after calls) parts.0 z in
        let now : get_ms_since x.tick (stamp_stream x (stamp_after calls)) ≡ 0 =
          ap (get_ms_since x.tick) z ∙ since_zero x.tick ∙ tick in
        absurd (omega (arith, now, late))) in
    (
      parts.1,
      parts.2,
      (stamp_stream x (stamp_after calls), stamp-IsQuietSince (x ∷ calls) nonzero, late),
    )
