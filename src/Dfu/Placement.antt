-- ===== src/Dfu/Placement.antt =====
-- Where the non-sequential mode of t_boot_dfu.c writes the chunks, in whatever order they come.
use mynd_firmware.Prelude.{
  ℕ, suc, ◌*◌, ◌%◌, ◌≤◌, ◌<◌, ◌≡◌, ◌≢◌, ◌⊎◌, inl, inr, refl, sym, ap, ap₂, ◌∙◌, some, List, [], ◌∷◌,
  arith, length, All,
}
use mynd_firmware.Prelude.Words.{u32_mod, sub32}
use mynd_firmware.Prelude.Memory.{Memory, load_range, store_range, load_range-store_range}
use mynd_firmware.Dfu.Types.{
  Target, Config, header_length, header_component_id, chunk_number, chunk_length, find_target,
}
use mynd_firmware.Dfu.NonSequential.{
  Scattered, report_start, count_chunk, select_target, place_chunk,
  t_boot_dfu_non_sequential_process_chunk,
}
use mynd_firmware.Prelude.Memory.{length-load_range}
use mynd_firmware.Dfu.Chunks.{Works}
use mynd_firmware.Dfu.Offsets.{IsIntact, intact_lem, report_start-keeps}
use mynd_firmware.Dfu.Flash.{flash_of, store_range_apart, pieces_apart}

-- A piece of a firmware: its index from 0, its bytes, and the packet that carries it.
pub record Piece : Type 0 where
  pub index : ℕ
  pub bytes : List ℕ
  pub packet : Memory × ℕ

-- A sequence of packets.
unfoldable pub run_scattered : Config → Scattered → List Piece → Scattered
run_scattered config s [] = s
run_scattered config s (x ∷ pieces) =
    run_scattered config (t_boot_dfu_non_sequential_process_chunk config s x.packet.0 x.packet.1).1
      pieces

abbrev pub IsDistinct : List Piece → Type 0
IsDistinct [] = Unit
IsDistinct (x ∷ pieces) = All (λ y. x.index ≢ y.index) pieces × IsDistinct pieces

module _ (config : Config) (t : Target) (works : Works t) (before : Memory) (c : ℕ) where
  abbrev flash : Scattered → Memory
  flash s = flash_of t.component_id before s.log

  flash-count_chunk :
      (s : Scattered) (m : Memory)
      → (flash (count_chunk config s m).1 ≡ flash s)
        × ((count_chunk config s m).1.bytes_in_chunk ≡ s.bytes_in_chunk)
  unfolding count_chunk flash_of
  flash-count_chunk s m = ground arith

  flash-report_start : (s : Scattered) → flash (report_start config s) ≡ flash s
  unfolding report_start flash_of
  flash-report_start s = ground arith

  -- A chunk for the target is written behind the full chunks in front of it.
  place_chunk-flash :
      (s : Scattered) (m : Memory)
      → s.p_current_dfu_target ≡ some t
      → 0 < c
      → (s.bytes_in_chunk ≡ c) ⊎ ((s.bytes_in_chunk ≡ 0) × (chunk_length m ≡ c))
      → let out = (place_chunk config s m).1 in
        (out.bytes_in_chunk ≡ c)
        × (flash out
            ≡ store_range
                (flash s)
                (c * sub32 (chunk_number m) 1 % u32_mod)
                (load_range m header_length (chunk_length m)))
  unfolding place_chunk flash_of
  place_chunk-flash s m e pos_c sized = grind (arith, e, works.write_succeeds, flash-count_chunk)

  -- The packet passes the checks, is for the target, and carries the piece with its number from 1; the
  -- piece has `c` bytes at the most, and lies below 2 ^ 32.
  pub record IsCarried (x : Piece) : Type 0 where
    pub intact : IsIntact config x.packet
    pub targeted : find_target config.targets (header_component_id x.packet.0) ≡ some t
    pub numbered : chunk_number x.packet.0 ≡ suc x.index
    pub carries : load_range x.packet.0 header_length (chunk_length x.packet.0) ≡ x.bytes
    pub fits : length x.bytes ≤ c
    pub reaches : c * x.index < u32_mod
    pub counted : x.index < 65535

  select_known :
      (s : Scattered) (id : ℕ)
      → find_target config.targets id ≡ some t
      → select_target config s id ≡ record s { p_current_dfu_target = some t }
  unfolding select_target
  select_known s id e = rw (e, select_target) refl

  offset_lem :
      (x : Piece) → IsCarried x → c * sub32 (chunk_number x.packet.0) 1 % u32_mod ≡ c * x.index
  offset_lem x h =
      let e : sub32 (suc x.index) 1 ≡ x.index = omega (arith, h.counted) in
      ap (λ k. c * sub32 k 1 % u32_mod) h.numbered
      ∙ ap (λ k. c * k % u32_mod) e
      ∙ omega (arith, h.reaches)

  step_lem :
      (s : Scattered) (x : Piece)
      → IsCarried x
      → 0 < c
      → (s.bytes_in_chunk ≡ c) ⊎ ((s.bytes_in_chunk ≡ 0) × (length x.bytes ≡ c))
      → let out = (t_boot_dfu_non_sequential_process_chunk config s x.packet.0 x.packet.1).1 in
        (out.bytes_in_chunk ≡ c) × (flash out ≡ store_range (flash s) (c * x.index) x.bytes)
  step_lem s x h pos_c sized =
      let started = report_start config s in
      let k = report_start-keeps config s in
      let selected = record started { p_current_dfu_target = some t } in
      let size : length x.bytes ≡ chunk_length x.packet.0 =
        ap length (sym h.carries)
        ∙ length-load_range x.packet.0 header_length (chunk_length x.packet.0) in
      let placed =
        place_chunk-flash selected x.packet.0 refl pos_c
          (elim sized [ inl e ↦ inl (k.2 ∙ e) | inr e ↦ inr (k.2 ∙ e.0, sym size ∙ e.1) ]) in
      rw
        (
          intact_lem config s x.packet h.intact,
          select_known started (header_component_id x.packet.0) h.targeted,
        )
        (
          placed.0,
          placed.1
              ∙ ap
                  (λ f.
                    store_range f (c * sub32 (chunk_number x.packet.0) 1 % u32_mod)
                      (load_range x.packet.0 header_length (chunk_length x.packet.0)))
                  (flash-report_start s)
              ∙ ap₂ (λ o bs. store_range (flash s) o bs) (offset_lem x h) h.carries,
        )

  -- Pieces behind another one leave it in place.
  keeps_piece :
      (pieces : List Piece) (s : Scattered) (i n : ℕ)
      → All IsCarried pieces
      → All (λ y. i ≢ y.index) pieces
      → 0 < c
      → n ≤ c
      → s.bytes_in_chunk ≡ c
      → load_range (flash (run_scattered config s pieces)) (c * i) n
        ≡ load_range (flash s) (c * i) n
  unfolding run_scattered
  keeps_piece [] s i n hs apart pos_c le e = refl
  keeps_piece (x ∷ pieces) s i n hs apart pos_c le e =
      let step = step_lem s x hs.0 pos_c (inl e) in
      keeps_piece pieces (t_boot_dfu_non_sequential_process_chunk config s x.packet.0 x.packet.1).1
        i n hs.1 apart.1 pos_c le step.0
      ∙ ap (λ f. load_range f (c * i) n) step.1
      ∙ store_range_apart (flash s) (c * x.index) x.bytes (c * i) n
          (pieces_apart c i x.index n (length x.bytes) apart.0 le hs.0.fits)

  -- Where a piece is to lie.
  abbrev pub IsPlaced : Scattered → Piece → Type 0
  IsPlaced s x = load_range (flash s) (c * x.index) (length x.bytes) ≡ x.bytes

  first_piece :
      (x : Piece) (pieces : List Piece) (s : Scattered)
      → All IsCarried (x ∷ pieces)
      → IsDistinct (x ∷ pieces)
      → 0 < c
      → (s.bytes_in_chunk ≡ c) ⊎ ((s.bytes_in_chunk ≡ 0) × (length x.bytes ≡ c))
      → IsPlaced (run_scattered config s (x ∷ pieces)) x
  unfolding run_scattered
  first_piece x pieces s hs apart pos_c sized =
      let step = step_lem s x hs.0 pos_c sized in
      keeps_piece pieces (t_boot_dfu_non_sequential_process_chunk config s x.packet.0 x.packet.1).1
        x.index (length x.bytes) hs.1 apart.0 pos_c hs.0.fits step.0
      ∙ ap (λ f. load_range f (c * x.index) (length x.bytes)) step.1
      ∙ load_range-store_range (flash s) (c * x.index) x.bytes

  later_pieces :
      (pieces : List Piece) (s : Scattered)
      → All IsCarried pieces
      → IsDistinct pieces
      → 0 < c
      → s.bytes_in_chunk ≡ c
      → All (IsPlaced (run_scattered config s pieces)) pieces
  unfolding run_scattered
  later_pieces [] s hs apart pos_c e = tt
  later_pieces (x ∷ pieces) s hs apart pos_c e = (
    first_piece x pieces s hs apart pos_c (inl e),
    later_pieces pieces (t_boot_dfu_non_sequential_process_chunk config s x.packet.0 x.packet.1).1
        hs.1 apart.1 pos_c (step_lem s x hs.0 pos_c (inl e)).0,
  )

  -- Take the pieces of a firmware for a target whose write succeeds, each in a packet that passes the
  -- checks, numbered from 1, with distinct numbers up to 65535, of `c` bytes at the most and beginning below 2 ^ 32. In
  -- whatever order they come, if no chunk has been received before and the first to come has `c` bytes, at least one,
  -- the memory of the target then holds every piece at `c` times its index, whatever it held before.
  pub run_scattered-IsPlaced :
      (x : Piece) (pieces : List Piece) (s : Scattered)
      → All IsCarried (x ∷ pieces)
      → IsDistinct (x ∷ pieces)
      → 0 < c
      → s.bytes_in_chunk ≡ 0
      → length x.bytes ≡ c
      → All (IsPlaced (run_scattered config s (x ∷ pieces))) (x ∷ pieces)
  unfolding run_scattered
  run_scattered-IsPlaced x pieces s hs apart pos_c none_yet full = (
    first_piece x pieces s hs apart pos_c (inr (none_yet, full)),
    later_pieces pieces (t_boot_dfu_non_sequential_process_chunk config s x.packet.0 x.packet.1).1
        hs.1 apart.1 pos_c (step_lem s x hs.0 pos_c (inr (none_yet, full))).0,
  )
