-- ===== src/Dfu/Faults.antt =====
-- Null targets and divisions by zero in the sequential mode of t_boot_dfu.c: where they cannot happen, and where
-- an update cannot end. A chunk length beyond the packet, for which the source reads out of bounds, is no fault of
-- the model.
use mynd_firmware.Prelude.{
  ℕ, ◌<◌, ◌≡◌, ◌≢◌, ◌⊎◌, inl, inr, refl, ◌∙◌, some, List, [], ◌∷◌, arith, ltb, ◌==◌, Bool-cases,
  Option-cases,
}
use mynd_firmware.Prelude.Memory.{Memory}
use mynd_firmware.Dfu.Types.{
  Target, Config, Outcome, fault, fw_size, packet_type, packet_fw_header, header_component_id,
  find_target, chunk_size,
}
use mynd_firmware.Dfu.Sequential.{
  Boot, ProcessState, wait_init, wait_fw_header, wait_chunk, finished, failure, error_failed,
  receive_init, receive_fw_header, component_done, all_chunks_received, chunk_written, write_chunk,
  receive_chunk, dispatch, t_boot_dfu_sequential_process_chunk,
}

-- A call that does not fault, and keeps the target, the size and the number of chunks.
record Stays (s : Boot) (out : Outcome × Boot) : Type 0 where
  safe : out.0 ≢ fault
  same_target : out.1.p_current_dfu_target ≡ s.p_current_dfu_target
  same_size : out.1.fw_size ≡ s.fw_size

module _ (config : Config) where
  error_failed-Stays : (s : Boot) (c : ℕ) → Stays s (error_failed config s c)
  unfolding error_failed
  error_failed-Stays s c = ground arith

  component_done-Stays : (s : Boot) (t : Target) → Stays s (component_done config s t)
  unfolding component_done
  component_done-Stays s t = ground arith

  all_chunks_received-Stays : (s : Boot) (t : Target) → Stays s (all_chunks_received config s t)
  unfolding all_chunks_received
  all_chunks_received-Stays s t = grind (arith, error_failed-Stays, component_done-Stays)

  chunk_written-Stays :
      (s : Boot) (t : Target) (n : ℕ) → 0 < s.fw_size → Stays s (chunk_written config s t n)
  unfolding chunk_written
  chunk_written-Stays s t n h = grind (arith, all_chunks_received-Stays)

  write_chunk-Stays :
      (s : Boot) (t : Target) (payload : List ℕ) (n : ℕ)
      → 0 < s.fw_size
      → Stays s (write_chunk config s t payload n)
  unfolding write_chunk
  write_chunk-Stays s t payload n h = grind (arith, error_failed-Stays, chunk_written-Stays)

  receive_chunk-Stays :
      (s : Boot) (m : Memory) (t : Target)
      → s.p_current_dfu_target ≡ some t
      → 0 < s.fw_size
      → Stays s (receive_chunk config s m)
  unfolding receive_chunk
  receive_chunk-Stays s m t e h = grind (arith, error_failed-Stays, write_chunk-Stays)

  -- While a chunk is awaited there is a current target, and the announced size is not 0.
  abbrev pub Ready : Boot → Type 0
  Ready s =
      s.state ≡ wait_chunk → ((t : Target) × (s.p_current_dfu_target ≡ some t)) × (0 < s.fw_size)

  receive_fw_header-Ready :
      (s : Boot) (m : Memory)
      → (packet_type m ≡ packet_fw_header → 0 < fw_size m)
      → let out = receive_fw_header config s m in (out.0 ≢ fault) × Ready out.1
  unfolding receive_fw_header error_failed
  receive_fw_header-Ready s m h =
      elim (Option-cases (find_target config.targets (header_component_id m))) [
        | inl e ↦ ground arith
        | inr (t, e) ↦ elim (Bool-cases (packet_type m == packet_fw_header)) [
          | inl p ↦
              let size = h (ground arith) in (ground arith, λ _. ((t, ground arith), ground arith))
          | inr p ↦ ground arith
        ]
      ]

  failed-Ready :
      (s : Boot) (c : ℕ) → let out = error_failed config s c in (out.0 ≢ fault) × Ready out.1
  unfolding error_failed
  failed-Ready s c = (ground arith, λ e. cc)

  dispatch-Ready :
      (s : Boot) (m : Memory) (state : ProcessState)
      → s.state ≡ state
      → Ready s
      → (packet_type m ≡ packet_fw_header → 0 < fw_size m)
      → let out = dispatch config state s m in (out.0 ≢ fault) × Ready out.1
  unfolding dispatch receive_init error_failed
  dispatch-Ready s m wait_init e r h = ground arith
  dispatch-Ready s m wait_fw_header e r h = receive_fw_header-Ready s m h
  dispatch-Ready s m wait_chunk e r h =
      let k = receive_chunk-Stays s m (r e).0.0 (r e).0.1 (r e).1 in
      (k.safe, λ _. (((r e).0.0, k.same_target ∙ (r e).0.1), omega (arith, k.same_size, (r e).1)))
  dispatch-Ready s m finished e r h = (ground arith, r)
  dispatch-Ready s m failure e r h = (ground arith, r)

  -- If the packet is no firmware header that announces a size of 0: from a context in which a chunk is awaited only
  -- with a target and a size that is not 0 (such as a fresh one), a call neither goes through a null target nor
  -- divides by zero, and it leaves such a context.
  pub process_chunk-Ready :
      (s : Boot) (m : Memory) (length : ℕ)
      → Ready s
      → (packet_type m ≡ packet_fw_header → 0 < fw_size m)
      → let out = t_boot_dfu_sequential_process_chunk config s m length in
        (out.0 ≢ fault) × Ready out.1
  unfolding t_boot_dfu_sequential_process_chunk
  process_chunk-Ready s m length r h = elim (Bool-cases (ltb chunk_size length)) [
    | inl long ↦ rw (long, t_boot_dfu_sequential_process_chunk) (failed-Ready s 1)
    | inr short ↦
        rw (short, t_boot_dfu_sequential_process_chunk) (dispatch-Ready s m s.state refl r h)
  ]

  -- A sequence of packets.
  unfoldable pub run : Boot → List (Memory × ℕ) → Boot
  run s [] = s
  run s ((m, length) ∷ packets) =
      run (t_boot_dfu_sequential_process_chunk config s m length).1 packets

  -- A firmware of 65535 chunks is being received, or has failed.
  abbrev pub Unfinishable : Boot → Type 0
  Unfinishable s = ((s.state ≡ wait_chunk) × (s.number_of_chunks ≡ 65535)) ⊎ (s.state ≡ failure)

  chunk_written-Unfinishable :
      (s : Boot) (t : Target) (n : ℕ)
      → s.state ≡ wait_chunk
      → s.number_of_chunks ≡ 65535
      → Unfinishable (chunk_written config s t n).1
  unfolding chunk_written
  chunk_written-Unfinishable s t n e h = ground arith

  receive_chunk-Unfinishable :
      (s : Boot) (m : Memory)
      → s.state ≡ wait_chunk
      → s.number_of_chunks ≡ 65535
      → Unfinishable (receive_chunk config s m).1
  unfolding receive_chunk write_chunk error_failed
  receive_chunk-Unfinishable s m e h = grind (arith, chunk_written-Unfinishable)

  dispatch-Unfinishable :
      (s : Boot) (m : Memory) (state : ProcessState)
      → s.state ≡ state
      → Unfinishable s
      → Unfinishable (dispatch config state s m).1
  unfolding dispatch
  dispatch-Unfinishable s m wait_init e u = ground arith
  dispatch-Unfinishable s m wait_fw_header e u = ground arith
  dispatch-Unfinishable s m wait_chunk e (inl (w, n)) = receive_chunk-Unfinishable s m w n
  dispatch-Unfinishable s m wait_chunk e (inr f) = ground arith
  dispatch-Unfinishable s m finished e u = ground arith
  dispatch-Unfinishable s m failure e u = u

  process_chunk-Unfinishable :
      (s : Boot) (m : Memory) (length : ℕ)
      → Unfinishable s
      → Unfinishable (t_boot_dfu_sequential_process_chunk config s m length).1
  unfolding t_boot_dfu_sequential_process_chunk error_failed
  process_chunk-Unfinishable s m length u = elim (Bool-cases (ltb chunk_size length)) [
    | inl long ↦ rw (long, t_boot_dfu_sequential_process_chunk) (inr refl)
    | inr short ↦
        rw (short, t_boot_dfu_sequential_process_chunk) (dispatch-Unfinishable s m s.state refl u)
  ]

  -- From a context in which the chunks of a firmware of 65535 chunks are awaited, or which has failed, no
  -- sequence of packets reaches the finished state: the 16-bit number of the next chunk wraps to 0
  -- before it exceeds 65535.
  pub run_never_finishes :
      (s : Boot) (packets : List (Memory × ℕ)) → Unfinishable s → (run s packets).state ≢ finished
  unfolding run
  run_never_finishes s [] u = ground arith
  run_never_finishes s ((m, length) ∷ packets) u =
      run_never_finishes (t_boot_dfu_sequential_process_chunk config s m length).1 packets
        (process_chunk-Unfinishable s m length u)
