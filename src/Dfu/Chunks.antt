-- ===== src/Dfu/Chunks.antt =====
-- The chunks of one component in the sequential mode of t_boot_dfu.c: each is handed over and counted,
-- and the last one ends the component.
use mynd_firmware.Prelude.{
  ℕ, suc, ◌+◌, ◌≤◌, ◌<◌, ◌≡◌, ap, true, some, List, [], ◌∷◌, arith, ◌==◌, if◌then◌else◌, length,
}
use mynd_firmware.Prelude.Memory.{Memory, load_range}
use mynd_firmware.Dfu.Vigenere.{t_boot_encryption_decode_in_place}
use mynd_firmware.Dfu.Types.{
  Log, Target, Config, chunk_size, header_length, packet_type, packet_data, chunk_number,
  chunk_length, chunk_crc32,
}
use mynd_firmware.Dfu.Sequential.{
  Boot, wait_fw_header, wait_chunk, finished, component_done, all_chunks_received, chunk_written,
  write_chunk, decrypt, receive_chunk, dispatch, t_boot_dfu_sequential_process_chunk,
}
use mynd_firmware.Dfu.Safety.{flashed}
use mynd_firmware.Dfu.Faults.{run}

-- A target whose write and verify succeed.
pub record Works (t : Target) : Type 0 where
  pub write_succeeds : (log : Log) (bs : List ℕ) (offset : ℕ) → t.writes log bs offset ≡ true
  pub verify_succeeds : (log : Log) → t.verifies log ≡ true

module _ (config : Config) where
  -- What is written of the payload of a chunk.
  unfoldable pub plain_of : ℕ → List ℕ → List ℕ
  plain_of encryption_type payload =
      if encryption_type == 1 then t_boot_encryption_decode_in_place config.key payload else payload

  -- A packet that carries chunk `k` with the payload `payload`.
  pub record IsChunk (k : ℕ) (payload : List ℕ) (p : Memory × ℕ) : Type 0 where
    pub small : p.1 ≤ chunk_size
    pub is_data : packet_type p.0 ≡ packet_data
    pub number : chunk_number p.0 ≡ k
    pub carries : load_range p.0 header_length (chunk_length p.0) ≡ payload
    pub crc : config.crc_compute payload ≡ chunk_crc32 p.0

  -- Chunk `k` of a component is due, and `fl` has been written so far.
  pub record Receiving (t : Target) (encryption left chunks k : ℕ) (fl : List (ℕ × List ℕ))
      (s : Boot) : Type 0 where
    pub at_chunk : s.state ≡ wait_chunk
    pub target : s.p_current_dfu_target ≡ some t
    pub encrypted : s.encryption_type ≡ encryption
    pub components : s.dfu_components_left ≡ left
    pub expected : s.number_of_chunks ≡ chunks
    pub due : s.next_chunk ≡ k
    pub written : flashed s.log ≡ fl
    pub sized : 0 < s.fw_size

  -- A component has ended: `left` more are expected, or the update is finished.
  pub record Between (encryption left : ℕ) (fl : List (ℕ × List ℕ)) (s : Boot) : Type 0 where
    pub state : s.state ≡ (if left == 0 then finished else wait_fw_header)
    pub encrypted : s.encryption_type ≡ encryption
    pub components : s.dfu_components_left ≡ left
    pub written : flashed s.log ≡ fl

  -- What has been written behind the payloads, newest first.
  abbrev pub written_after : Target → ℕ → List (List ℕ) → List (ℕ × List ℕ) → List (ℕ × List ℕ)
  written_after t encryption [] fl = fl
  written_after t encryption (p ∷ payloads) fl =
      written_after t encryption payloads ((t.component_id, plain_of encryption p) ∷ fl)

  -- The packets carry the payloads, numbered from `k` on.
  abbrev pub AreChunks : ℕ → List (List ℕ) → List (Memory × ℕ) → Type 0
  AreChunks k [] [] = Unit
  AreChunks k [] (p ∷ packets) = ⊥
  AreChunks k (payload ∷ payloads) [] = ⊥
  AreChunks k (payload ∷ payloads) (p ∷ packets) =
      IsChunk k payload p × AreChunks (k + 1) payloads packets

  module _ (t : Target) (works : Works t) (encryption : ℕ) (known : encryption < 2) where
    accept_chunk :
        (s : Boot) (p : Memory × ℕ) (k left chunks : ℕ) (payload : List ℕ) (fl : List (ℕ × List ℕ))
        → Receiving t encryption left chunks k fl s
        → IsChunk k payload p
        → t_boot_dfu_sequential_process_chunk config s p.0 p.1
          ≡ write_chunk config s t (plain_of encryption payload) (chunk_length p.0)
    unfolding t_boot_dfu_sequential_process_chunk dispatch receive_chunk decrypt plain_of
    accept_chunk s p k left chunks payload fl r c = ground (arith, r, c)

    next_chunk :
        (s : Boot) (n k left chunks : ℕ) (payload : List ℕ) (fl : List (ℕ × List ℕ))
        → Receiving t encryption left chunks k fl s
        → k < chunks
        → chunks < 65535
        → Receiving t encryption left chunks
            (k + 1)
            ((t.component_id, payload) ∷ fl)
            (write_chunk config s t payload n).1
    unfolding write_chunk chunk_written
    next_chunk s n k left chunks payload fl r h b =
        ground (arith, r, works.write_succeeds s.log payload 0)

    last_chunk :
        (s : Boot) (n k left chunks : ℕ) (payload : List ℕ) (fl : List (ℕ × List ℕ))
        → Receiving t encryption (suc left) chunks k fl s
        → k ≡ chunks
        → chunks < 65535
        → left < 255
        → Between encryption left
            ((t.component_id, payload) ∷ fl)
            (write_chunk config s t payload n).1
    unfolding write_chunk chunk_written all_chunks_received component_done
    last_chunk s n k left chunks payload fl r h b l =
        grind (arith, r, works.write_succeeds, works.verify_succeeds)

    -- All chunks of a component, from the `k`-th to the last.
    pub run_chunks :
        (payload : List ℕ) (payloads : List (List ℕ)) (packets : List (Memory × ℕ)) (s : Boot)
        (k left chunks : ℕ) (fl : List (ℕ × List ℕ))
        → AreChunks k (payload ∷ payloads) packets
        → Receiving t encryption (suc left) chunks k fl s
        → k + length payloads ≡ chunks
        → chunks < 65535
        → left < 255
        → Between encryption left
            (written_after t encryption (payload ∷ payloads) fl)
            (run config s packets)
    unfolding run
    run_chunks payload payloads [] s k left chunks fl c r e b l = absurd c
    run_chunks payload [] (p ∷ []) s k left chunks fl c r e b l =
        let one = accept_chunk s p k (suc left) chunks payload fl r c.0 in
        rw (ap (λ o. o.1) one) (
          last_chunk s (chunk_length p.0) k left chunks (plain_of encryption payload) fl r
            (omega arith) b l)
    run_chunks payload [] (p ∷ q ∷ packets) s k left chunks fl c r e b l = absurd c.1
    run_chunks payload (next ∷ payloads) (p ∷ packets) s k left chunks fl c r e b l =
        let s' = (write_chunk config s t (plain_of encryption payload) (chunk_length p.0)).1 in
        let one = accept_chunk s p k (suc left) chunks payload fl r c.0 in
        rw (ap (λ o. o.1) one) (
          run_chunks next payloads packets s' (k + 1) left chunks
            ((t.component_id, plain_of encryption payload) ∷ fl) c.1
            (next_chunk s (chunk_length p.0) k (suc left) chunks (plain_of encryption payload) fl r
              (omega arith) b)
            (omega arith) b l)
