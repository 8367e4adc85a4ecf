-- ===== src/Dfu/Offsets.antt =====
-- The non-sequential mode of t_boot_dfu.c: a chunk that passes the checks, and one of a component without a
-- target.
use mynd_firmware.Prelude.{ℕ, ◌≤◌, ◌≡◌, refl, ap, ◌∙◌, none, some, ◌∷◌, arith}
use mynd_firmware.Prelude.Memory.{Memory, load_range}
use mynd_firmware.Dfu.Types.{
  Target, Config, fault, chunk_size, header_length, packet_type, packet_data, header_component_id,
  chunk_length, chunk_crc32, find_target,
}
use mynd_firmware.Dfu.Safety.{flashed}
use mynd_firmware.Dfu.NonSequential.{
  Scattered, report_start, count_chunk, select_target, place_chunk, receive_scattered,
  scattered_failed, t_boot_dfu_non_sequential_process_chunk,
}

module _ (config : Config) where
  -- A data packet that passes the checks.
  pub record IsIntact (p : Memory × ℕ) : Type 0 where
    pub small : p.1 ≤ chunk_size
    pub is_data : packet_type p.0 ≡ packet_data
    pub crc : config.crc_compute (load_range p.0 header_length (chunk_length p.0)) ≡ chunk_crc32 p.0

  pub intact_lem :
      (s : Scattered) (p : Memory × ℕ)
      → IsIntact p
      → t_boot_dfu_non_sequential_process_chunk config s p.0 p.1
        ≡ place_chunk config
            (select_target config (report_start config s) (header_component_id p.0))
            p.0
  unfolding t_boot_dfu_non_sequential_process_chunk receive_scattered
  intact_lem s p h = ground (arith, h.small, h.is_data, h.crc)

  flashed-count_chunk :
      (s : Scattered) (m : Memory) → flashed (count_chunk config s m).1.log ≡ flashed s.log
  unfolding count_chunk
  flashed-count_chunk s m = ground arith

  flashed-place_chunk :
      (s : Scattered) (m : Memory) (t : Target)
      → s.p_current_dfu_target ≡ some t
      → flashed (place_chunk config s m).1.log
        ≡ (t.component_id, load_range m header_length (chunk_length m)) ∷ flashed s.log
  unfolding place_chunk scattered_failed
  flashed-place_chunk s m t e = grind (arith, e, flashed-count_chunk)

  select_none :
      (s : Scattered) (id : ℕ)
      → find_target config.targets id ≡ none
      → select_target config s id ≡ s
  unfolding select_target
  select_none s id e = rw (e, select_target) refl

  pub report_start-keeps :
      (s : Scattered)
      → ((report_start config s).p_current_dfu_target ≡ s.p_current_dfu_target)
        × (flashed (report_start config s).log ≡ flashed s.log)
        × ((report_start config s).bytes_in_chunk ≡ s.bytes_in_chunk)
  unfolding report_start
  report_start-keeps s = ground arith

  place_chunk_fault :
      (s : Scattered) (m : Memory)
      → s.p_current_dfu_target ≡ none
      → (place_chunk config s m).0 ≡ fault
  unfolding place_chunk
  place_chunk_fault s m e = ground (arith, e)

  -- A data packet that passes the checks, of a component that no target has: without a target from an
  -- earlier chunk, the call goes through a null pointer; with one, that target is handed the data.
  unknown_component_misplaced :
      (s : Scattered) (p : Memory × ℕ)
      → IsIntact p
      → find_target config.targets (header_component_id p.0) ≡ none
      → let out = t_boot_dfu_non_sequential_process_chunk config s p.0 p.1 in
        (s.p_current_dfu_target ≡ none → out.0 ≡ fault)
        × ((t : Target)
            → s.p_current_dfu_target ≡ some t
            → flashed out.1.log
              ≡ (t.component_id, load_range p.0 header_length (chunk_length p.0)) ∷ flashed s.log)
  unknown_component_misplaced s p h none_found = rw (intact_lem s p h) (
      let started = report_start config s in
      let unselected : select_target config started (header_component_id p.0) ≡ started =
        select_none started (header_component_id p.0) none_found in
      let k = report_start-keeps s in
      rw (unselected) (
        (λ e. place_chunk_fault started p.0 (k.0 ∙ e)),
        (λ t e.
            flashed-place_chunk started p.0 t (k.0 ∙ e)
            ∙ ap (λ l. (t.component_id, load_range p.0 header_length (chunk_length p.0)) ∷ l) k.1),
      ))
