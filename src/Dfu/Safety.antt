-- ===== src/Dfu/Safety.antt =====
-- What every packet, well formed or not, can do to the sequential mode of t_boot_dfu.c.
use mynd_firmware.Prelude.{
  ℕ, ◌≤◌, ◌≡◌, ◌⊎◌, inl, inr, refl, ap, ◌∙◌, Bool, true, false, none, some, List, [], ◌∷◌, arith,
  ltb, ◌==◌, ◌&&◌, Bool-cases, Option-cases,
}
use mynd_firmware.Prelude.Memory.{Memory, load_range}
use mynd_firmware.Dfu.Types.{
  target_init, target_prepare, target_write, target_verify, update_start, update_successful,
  update_error, update_progress, update_component_done, Log, Target, Config, chunk_size,
  header_length, chunk_length, chunk_crc32, chunk_number,
}
use mynd_firmware.Dfu.Sequential.{
  Boot, ProcessState, wait_init, wait_fw_header, wait_chunk, finished, failure, error_failed,
  receive_init, receive_fw_header, component_done, all_chunks_received, chunk_written, write_chunk,
  decrypt, receive_chunk, dispatch, t_boot_dfu_sequential_process_chunk,
}

-- The data that has been handed to the targets, newest first, with the component that got it.
abbrev pub flashed : Log → List (ℕ × List ℕ)
flashed [] = []
flashed (target_write id payload offset ∷ log) = (id, payload) ∷ flashed log
flashed (target_init id ∷ log) = flashed log
flashed (target_prepare id size crc ∷ log) = flashed log
flashed (target_verify id ∷ log) = flashed log
flashed (update_start n ∷ log) = flashed log
flashed (update_successful ∷ log) = flashed log
flashed (update_error id code ∷ log) = flashed log
flashed (update_progress id progress ∷ log) = flashed log
flashed (update_component_done id ∷ log) = flashed log

module _ (config : Config) where
  flashed-error_failed :
      (s : Boot) (code : ℕ) → flashed (error_failed config s code).1.log ≡ flashed s.log
  unfolding error_failed
  flashed-error_failed s code = ground arith

  flashed-receive_init :
      (s : Boot) (m : Memory) → flashed (receive_init config s m).1.log ≡ flashed s.log
  unfolding receive_init error_failed
  flashed-receive_init s m = ground arith

  flashed-receive_fw_header :
      (s : Boot) (m : Memory) → flashed (receive_fw_header config s m).1.log ≡ flashed s.log
  unfolding receive_fw_header error_failed
  flashed-receive_fw_header s m = ground arith

  flashed-component_done :
      (s : Boot) (t : Target) → flashed (component_done config s t).1.log ≡ flashed s.log
  unfolding component_done
  flashed-component_done s t = ground arith

  flashed-all_chunks_received :
      (s : Boot) (t : Target) → flashed (all_chunks_received config s t).1.log ≡ flashed s.log
  unfolding all_chunks_received error_failed
  flashed-all_chunks_received s t = grind (arith, flashed-component_done)

  flashed-chunk_written :
      (s : Boot) (t : Target) (n : ℕ) → flashed (chunk_written config s t n).1.log ≡ flashed s.log
  unfolding chunk_written
  flashed-chunk_written s t n = grind (arith, flashed-all_chunks_received)

  flashed-write_chunk :
      (s : Boot) (t : Target) (payload : List ℕ) (n : ℕ)
      → flashed (write_chunk config s t payload n).1.log ≡ (t.component_id, payload) ∷ flashed s.log
  unfolding write_chunk error_failed
  flashed-write_chunk s t payload n = grind (arith, flashed-chunk_written)

  -- What must hold of a packet that a target is handed the data of.
  pub record IsChecked (s : Boot) (m : Memory) (length : ℕ) (t : Target) (plain : List ℕ)
      : Type 0 where
    pub expected : s.state ≡ wait_chunk
    pub small : length ≤ chunk_size
    pub target : s.p_current_dfu_target ≡ some t
    pub crc_matches :
        config.crc_compute (load_range m header_length (chunk_length m)) ≡ chunk_crc32 m
    pub in_order : s.next_chunk ≡ chunk_number m
    pub decrypted :
        decrypt config s.encryption_type (load_range m header_length (chunk_length m)) ≡ some plain

  -- Either a call hands no data to a target, or it hands over the decrypted payload of one packet, to
  -- the current target, and the packet has the CRC that it announces and the number that is due.
  abbrev pub FlashesChecked : Boot → Memory → ℕ → Boot → Type 0
  FlashesChecked s m length s' =
      (flashed s'.log ≡ flashed s.log)
      ⊎ ((t : Target) × (plain : List ℕ) × (flashed s'.log
            ≡ (t.component_id, plain) ∷ flashed s.log)
          × IsChecked s m length t plain)

  -- The tests in front of the decryption.
  abbrev passes : Boot → Memory → Bool
  passes s m =
      (m 4 == 2)
      && (config.crc_compute (load_range m header_length (chunk_length m)) == chunk_crc32 m)
      && (s.next_chunk == chunk_number m)

  rejected_lem :
      (s : Boot) (m : Memory)
      → passes s m ≡ false
      → flashed (receive_chunk config s m).1.log ≡ flashed s.log
  unfolding receive_chunk
  rejected_lem s m h = grind (arith, flashed-error_failed)

  accepted_lem :
      (s : Boot) (m : Memory) (t : Target) (plain : List ℕ)
      → passes s m ≡ true
      → decrypt config s.encryption_type (load_range m header_length (chunk_length m)) ≡ some plain
      → s.p_current_dfu_target ≡ some t
      → receive_chunk config s m ≡ write_chunk config s t plain (chunk_length m)
  unfolding receive_chunk
  accepted_lem s m t plain h d c = ground arith

  undecrypted_lem :
      (s : Boot) (m : Memory)
      → (decrypt config s.encryption_type (load_range m header_length (chunk_length m)) ≡ none)
        ⊎ (s.p_current_dfu_target ≡ none)
      → flashed (receive_chunk config s m).1.log ≡ flashed s.log
  unfolding receive_chunk
  undecrypted_lem s m h = grind (arith, flashed-error_failed)

  receive_chunk-FlashesChecked :
      (s : Boot) (m : Memory) (length : ℕ)
      → s.state ≡ wait_chunk
      → length ≤ chunk_size
      → FlashesChecked s m length (receive_chunk config s m).1
  receive_chunk-FlashesChecked s m length e h =
      let payload = load_range m header_length (chunk_length m) in
      elim (Bool-cases (passes s m)) [
        | inr fails ↦ inl (rejected_lem s m fails)
        | inl pass ↦ elim (Option-cases (decrypt config s.encryption_type payload)) [
          | inl none_d ↦ inl (undecrypted_lem s m (inl none_d))
          | inr (plain, d) ↦ elim (Option-cases s.p_current_dfu_target) [
            | inl none_t ↦ inl (undecrypted_lem s m (inr none_t))
            | inr (t, c) ↦ inr (
              t,
              plain,
              ap (λ r. flashed r.1.log) (accepted_lem s m t plain pass d c)
                  ∙ flashed-write_chunk s t plain (chunk_length m),
              record {
                expected = e;
                small = h;
                target = c;
                crc_matches = ground arith;
                in_order = ground arith;
                decrypted = d;
              },
            )
          ]
        ]
      ]

  dispatch-FlashesChecked :
      (s : Boot) (m : Memory) (length : ℕ) (state : ProcessState)
      → s.state ≡ state
      → length ≤ chunk_size
      → FlashesChecked s m length (dispatch config state s m).1
  unfolding dispatch
  dispatch-FlashesChecked s m length wait_init e h = inl (flashed-receive_init s m)
  dispatch-FlashesChecked s m length wait_fw_header e h = inl (flashed-receive_fw_header s m)
  dispatch-FlashesChecked s m length wait_chunk e h = receive_chunk-FlashesChecked s m length e h
  dispatch-FlashesChecked s m length finished e h = inl refl
  dispatch-FlashesChecked s m length failure e h = inl refl

  -- For every context and every packet: a call of t_boot_dfu_process_chunk in sequential mode hands
  -- data to a target at most once, and only if it was waiting for a chunk, the packet is at most 512
  -- bytes long, its payload has the announced CRC, its number is the one that is due, and its
  -- encryption is known; then the current target gets exactly the decrypted payload.
  pub process_chunk-FlashesChecked :
      (s : Boot) (m : Memory) (length : ℕ)
      → FlashesChecked s m length (t_boot_dfu_sequential_process_chunk config s m length).1
  unfolding t_boot_dfu_sequential_process_chunk
  process_chunk-FlashesChecked s m length = elim (Bool-cases (ltb chunk_size length)) [
    | inl long ↦ rw (long, t_boot_dfu_sequential_process_chunk) (inl (flashed-error_failed s 1))
    | inr short ↦
        rw (short, t_boot_dfu_sequential_process_chunk)
          (dispatch-FlashesChecked s m length s.state refl (ground arith))
  ]
