-- ===== src/Drivers/Loading.antt =====
-- The loop of tas58…_load_configuration against the commands, and that it ends.
use mynd_firmware.Prelude.{
  ℕ, zero, suc, ◌+◌, ◌*◌, ◌/◌, ◌<◌, ◌≡◌, refl, sym, ap, ap₂, ◌∙◌, true, false, Bool-cases,
  Option-cases, inl, inr, List, [], ◌∷◌, Option, none, some, All, length, length-append, leb, arith,
}
use mathlib.Core.Path.{subst}
use mynd_firmware.Prelude.Words.{sub32}
use mynd_firmware.Prelude.Memory.{Memory, load_range}
use mynd_firmware.Prelude.Int.{ℤ, pos, is_zero}
use mynd_firmware.Drivers.Bus.{Bus}
use mynd_firmware.Drivers.Tas.{write_bytes, load_step, load_from, load_configuration}
use mynd_firmware.Drivers.Commands.{
  Command, switch, delay, burst, single, encode, encode_all, IsCommand, Holds, Holds-append_left,
  Holds-append_right, load_range-Holds, execute, execute_all,
}

module _ {S : Type 0} (bus : Bus S) (delay_fn : ℕ → S → S) where
  entries : Command → ℕ
  entries (switch param) = 1
  entries (delay ms) = 1
  entries (burst reg bytes) = (length bytes + 1) / 2 + 1 + 1
  entries (single reg value) = 1

  entries-length : (c : Command) → IsCommand c → 2 * entries c ≡ length (encode c)
  unfolding entries
  entries-length (switch param) k = refl
  entries-length (delay ms) k = refl
  entries-length (burst reg bytes) k = omega (arith, k.1, length-append bytes (0 ∷ []))
  entries-length (single reg value) k = refl

  entries_pos : (c : Command) → 0 < entries c
  unfolding entries
  entries_pos (switch param) = omega arith
  entries_pos (delay ms) = omega arith
  entries_pos (burst reg bytes) = omega arith
  entries_pos (single reg value) = omega arith

  -- A round is a command.
  step_lem :
      (config : Memory) (i : ℕ) (c : Command) (s : S)
      → IsCommand c
      → Holds config (2 * i) (encode c)
      → let out = execute bus delay_fn c s in
        load_step bus delay_fn config i s
        ≡ (out.0, elim out.0 [ some result ↦ i | none ↦ i + entries c ], out.1)
  unfolding load_step execute entries
  step_lem config i (switch param) s k h = ground (arith, h.0)
  step_lem config i (delay ms) s k h =
      let e : 2 * i + 1 ≡ suc (2 * i) = omega arith in rw (e) (ground (arith, h.0, h.1.0))
  step_lem config i (burst reg bytes) s k h =
      let at : (2 * i + 1 ≡ suc (2 * i))
          × (2 * (i + 1) ≡ suc (suc (2 * i)))
          × (suc (suc (2 * i)) + 1 ≡ suc (suc (suc (2 * i)))) =
        omega arith in
      let size : sub32 (length bytes + 1) 1 ≡ length bytes = omega (arith, k.0) in
      let payload : load_range config (suc (suc (suc (2 * i)))) (length bytes) ≡ bytes =
        load_range-Holds config (suc (suc (suc (2 * i)))) bytes
          (Holds-append_left config (suc (suc (suc (2 * i)))) bytes (0 ∷ []) h.1.1.1) in
      rw (at.0, at.1, at.2, h.0, h.1.0, h.1.1.0, size, payload)
        (elim (Bool-cases (is_zero (write_bytes bus reg bytes s).0)) [
          | inl e ↦ rw (e) (ap (λ j. (none, j, (write_bytes bus reg bytes s).1)) (omega arith))
          | inr e ↦ rw (e) refl
        ])
  step_lem config i (single reg value) s k h =
      let e : 2 * i + 1 ≡ suc (2 * i) = omega arith in rw (e) (ground (arith, k, h.0, h.1.0))

  load_from_goes_on :
      (fuel : ℕ) (config : Memory) (config_length i : ℕ) (s : S)
      → leb config_length i ≡ false
      → let round = load_step bus delay_fn config i s in
        round.0 ≡ none
        → load_from bus (suc fuel) delay_fn config config_length i s
          ≡ load_from bus fuel delay_fn config config_length round.1 round.2
  unfolding load_from
  load_from_goes_on fuel config config_length i s running e = rw (running, e, load_from) refl

  load_from_returns :
      (fuel : ℕ) (config : Memory) (config_length i : ℕ) (s : S) (result : ℤ)
      → leb config_length i ≡ false
      → let round = load_step bus delay_fn config i s in
        round.0 ≡ some result
        → load_from bus (suc fuel) delay_fn config config_length i s ≡ some (result, round.2)
  unfolding load_from load_step
  load_from_returns fuel config config_length i s result running e = rw (running, e, load_from) refl

  executes_on :
      (c : Command) (commands : List Command) (s : S)
      → (execute bus delay_fn c s).0 ≡ none
      → execute_all bus delay_fn (c ∷ commands) s
        ≡ execute_all bus delay_fn commands (execute bus delay_fn c s).1
  unfolding execute_all
  executes_on c commands s e = rw (e, execute_all) refl

  executes_to :
      (c : Command) (commands : List Command) (s : S) (result : ℤ)
      → (execute bus delay_fn c s).0 ≡ some result
      → execute_all bus delay_fn (c ∷ commands) s ≡ (result, (execute bus delay_fn c s).1)
  unfolding execute_all execute
  executes_to c commands s result e = rw (e, execute_all) refl

  -- A configuration that stands for commands is loaded as they say, and one round more than entries is fuel
  -- enough.
  load_from-execute_all :
      (fuel : ℕ) (config : Memory) (config_length i : ℕ) (commands : List Command) (s : S)
      → All IsCommand commands
      → Holds config (2 * i) (encode_all commands)
      → 2 * i + length (encode_all commands) ≡ 2 * config_length
      → config_length < fuel + i
      → load_from bus fuel delay_fn config config_length i s
        ≡ some (execute_all bus delay_fn commands s)
  unfolding load_from execute_all
  load_from-execute_all zero config config_length i commands s k h n f =
      absurd (omega (arith, n, f))
  load_from-execute_all (suc fuel) config config_length i [] s k h n f =
      let e : leb config_length i ≡ true = ground (arith, n) in rw (e, load_from) refl
  load_from-execute_all (suc fuel) config config_length i (c ∷ commands) s k h n f =
      let out = execute bus delay_fn c s in
      let size = entries-length c k.0 in
      let more = entries_pos c in
      let whole = length-append (encode c) (encode_all commands) in
      let running : leb config_length i ≡ false = ground (arith, n, size, more, whole) in
      let step =
        step_lem config i c s k.0
          (Holds-append_left config (2 * i) (encode c) (encode_all commands) h) in
      let at : 2 * i + length (encode c) ≡ 2 * (i + entries c) = omega (arith, size) in
      let rest : load_from bus fuel delay_fn config config_length (i + entries c) out.1
          ≡ some (execute_all bus delay_fn commands out.1) =
        load_from-execute_all fuel config config_length (i + entries c) commands out.1 k.1
          (subst (λ a. Holds config a (encode_all commands)) at
            (Holds-append_right config (2 * i) (encode c) (encode_all commands) h))
          (omega (arith, n, size, whole)) (omega (arith, f, more)) in
      elim (Option-cases out.0) [
        | inl e ↦
            (load_from_goes_on fuel config config_length i s running (ap (λ r. r.0) step ∙ e)
              ∙ ap₂ (λ a b. load_from bus fuel delay_fn config config_length a b)
                  (ap (λ r. r.1) step
                    ∙ ap (λ (o : Option ℤ). elim o [ some result ↦ i | none ↦ i + entries c ]) e)
                  (ap (λ r. r.2) step)
              ∙ rest
              ∙ ap some (sym (executes_on c commands s e)))
        | inr (result, e) ↦
            (load_from_returns fuel config config_length i s result running (ap (λ r. r.0) step ∙ e)
              ∙ ap (λ t. some (result, t)) (ap (λ r. r.2) step)
              ∙ ap some (sym (executes_to c commands s result e)))
      ]

  -- If a configuration holds the entries of commands and nothing else, bursts having an even number of
  -- bytes, fewer than 255, and single registers being below 253, then loading it does what the
  -- commands say one after the other, and returns 0, or the error of the first one that fails.
  pub load_configuration-execute_all :
      (config : Memory) (config_length : ℕ) (commands : List Command) (s : S)
      → All IsCommand commands
      → Holds config 0 (encode_all commands)
      → length (encode_all commands) ≡ 2 * config_length
      → load_configuration bus delay_fn config config_length s
        ≡ some (execute_all bus delay_fn commands s)
  unfolding load_configuration
  load_configuration-execute_all config config_length commands s k h n =
      load_from-execute_all (suc config_length) config config_length 0 commands s k h
        (omega (arith, n)) (omega arith)

  moves_on :
      (config : Memory) (i : ℕ) (s : S)
      → (load_step bus delay_fn config i s).0 ≡ none
      → i < (load_step bus delay_fn config i s).1
  unfolding load_step
  moves_on config i s e = ground (arith, e)

  load_from_ends :
      (fuel : ℕ) (config : Memory) (config_length i : ℕ) (s : S)
      → leb config_length i ≡ true
      → load_from bus (suc fuel) delay_fn config config_length i s ≡ some (pos 0, s)
  unfolding load_from
  load_from_ends fuel config config_length i s done = rw (done, load_from) refl

  still_running :
      (fuel config_length i : ℕ)
      → config_length < suc fuel + i
      → leb config_length i ≡ false
      → 0 < fuel
  still_running fuel config_length i f running = ground (arith, f, running)

  load_from_terminates :
      (fuel : ℕ) (config : Memory) (config_length i : ℕ) (s : S)
      → 0 < fuel
      → config_length < fuel + i
      → (r : ℤ × S) × (load_from bus fuel delay_fn config config_length i s ≡ some r)
  load_from_terminates zero config config_length i s some_fuel f = absurd (omega (arith, some_fuel))
  load_from_terminates (suc fuel) config config_length i s some_fuel f =
      let round = load_step bus delay_fn config i s in
      elim (Bool-cases (leb config_length i)) [
        | inl done ↦ ((pos 0, s), load_from_ends fuel config config_length i s done)
        | inr running ↦ elim (Option-cases round.0) [
          | inl e ↦
              (let rest =
                  load_from_terminates fuel config config_length round.1 round.2
                    (still_running fuel config_length i f running)
                    (omega (arith, f, moves_on config i s e)) in
                (rest.0, load_from_goes_on fuel config config_length i s running e ∙ rest.1))
          | inr (result, e) ↦
              ((result, round.2), load_from_returns fuel config config_length i s result running e)
        ]
      ]

  -- Whatever the bytes of a configuration are, and whatever the bus does, the fuel of
  -- load_configuration is enough: it has a result.
  pub load_configuration_terminates :
      (config : Memory) (config_length : ℕ) (s : S)
      → (r : ℤ × S) × (load_configuration bus delay_fn config config_length s ≡ some r)
  unfolding load_configuration
  load_configuration_terminates config config_length s =
      load_from_terminates (suc config_length) config config_length 0 s (omega arith) (omega arith)
