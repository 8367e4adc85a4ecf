-- ===== src/Dfu/States.antt =====
-- The state machine of the sequential mode of t_boot_dfu.c: what a return value says of the state,
-- when the code is free of undefined behaviour, and a firmware that can never be finished.
use mynd_firmware.Prelude.{ℕ, zero, suc, ◌≡◌, ◌⊎◌, inr, refl, List, arith}
use mynd_firmware.Prelude.Memory.{Memory}
use mynd_firmware.Prelude.Int.{pos, negsuc}
use mynd_firmware.Dfu.Types.{update_error, Log, Target, Config, notify, Outcome, returned, fault}
use mynd_firmware.Dfu.Sequential.{
  Boot, ProcessState, wait_init, wait_fw_header, wait_chunk, finished, failure, error_failed,
  receive_init, receive_fw_header, component_done, all_chunks_received, chunk_written, write_chunk,
  receive_chunk, dispatch, t_boot_dfu_sequential_process_chunk, current_id,
}

module _ (config : Config) where
  -- A return value of 1 means a finished update. A negative one means failure, with its code reported
  -- last to the error callback, if there is one. After 0 the update goes on, or had failed before,
  -- and then nothing has changed.
  abbrev pub Answers : Boot → Outcome → Boot → Type 0
  Answers s fault s' = Unit
  Answers s (returned (pos zero)) s' =
      (s'.state ≡ wait_fw_header) ⊎ (s'.state ≡ wait_chunk) ⊎ ((s.state ≡ failure) × (s' ≡ s))
  Answers s (returned (pos (suc n))) s' = (n ≡ 0) × (s'.state ≡ finished)
  Answers s (returned (negsuc c)) s' =
      (s'.state ≡ failure)
      × ((log : Log) × (s'.log
            ≡ notify config.has_update_error
                (update_error (current_id s'.p_current_dfu_target) (suc c)) log))

  error_failed-Answers :
      (s s₀ : Boot) (c : ℕ) → let out = error_failed config s (suc c) in Answers s₀ out.0 out.1
  unfolding error_failed
  error_failed-Answers s s₀ c = (refl, (s.log, refl))

  receive_init-Answers :
      (s s₀ : Boot) (m : Memory) → let out = receive_init config s m in Answers s₀ out.0 out.1
  unfolding receive_init
  receive_init-Answers s s₀ m = grind (arith, error_failed-Answers)

  receive_fw_header-Answers :
      (s s₀ : Boot) (m : Memory) → let out = receive_fw_header config s m in Answers s₀ out.0 out.1
  unfolding receive_fw_header
  receive_fw_header-Answers s s₀ m = grind (arith, error_failed-Answers)

  component_done-Answers :
      (s s₀ : Boot) (t : Target) → let out = component_done config s t in Answers s₀ out.0 out.1
  unfolding component_done
  component_done-Answers s s₀ t = grind arith

  all_chunks_received-Answers :
      (s s₀ : Boot) (t : Target)
      → let out = all_chunks_received config s t in Answers s₀ out.0 out.1
  unfolding all_chunks_received
  all_chunks_received-Answers s s₀ t = grind (arith, error_failed-Answers, component_done-Answers)

  chunk_written-Answers :
      (s s₀ : Boot) (t : Target) (n : ℕ)
      → s.state ≡ wait_chunk
      → let out = chunk_written config s t n in Answers s₀ out.0 out.1
  unfolding chunk_written
  chunk_written-Answers s s₀ t n e = grind (arith, all_chunks_received-Answers)

  write_chunk-Answers :
      (s s₀ : Boot) (t : Target) (payload : List ℕ) (n : ℕ)
      → s.state ≡ wait_chunk
      → let out = write_chunk config s t payload n in Answers s₀ out.0 out.1
  unfolding write_chunk
  write_chunk-Answers s s₀ t payload n e =
      grind (arith, error_failed-Answers, chunk_written-Answers)

  receive_chunk-Answers :
      (s s₀ : Boot) (m : Memory)
      → s.state ≡ wait_chunk
      → let out = receive_chunk config s m in Answers s₀ out.0 out.1
  unfolding receive_chunk
  receive_chunk-Answers s s₀ m e = grind (arith, error_failed-Answers, write_chunk-Answers)

  dispatch-Answers :
      (s : Boot) (m : Memory) (state : ProcessState)
      → s.state ≡ state
      → let out = dispatch config state s m in Answers s out.0 out.1
  unfolding dispatch
  dispatch-Answers s m wait_init e = receive_init-Answers s s m
  dispatch-Answers s m wait_fw_header e = receive_fw_header-Answers s s m
  dispatch-Answers s m wait_chunk e = receive_chunk-Answers s s m e
  dispatch-Answers s m finished e = (refl, e)
  dispatch-Answers s m failure e = inr (inr (e, refl))

  -- For every context and packet: if a call returns 1, the update is finished; if it returns a
  -- negative number -(c + 1), the state is failure, and the error callback, if set, was the last
  -- function called, with the id of the current target (0 without one) and that number; if it returns
  -- 0, it waits for a firmware header or a chunk, or had failed before the call and changed nothing.
  -- It returns nothing else.
  pub process_chunk-Answers :
      (s : Boot) (m : Memory) (length : ℕ)
      → let out = t_boot_dfu_sequential_process_chunk config s m length in Answers s out.0 out.1
  unfolding t_boot_dfu_sequential_process_chunk
  process_chunk-Answers s m length =
      grind (arith, error_failed-Answers s s 0, dispatch-Answers s m s.state refl)
