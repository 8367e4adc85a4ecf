-- ===== src/Disk/Writes.antt =====
-- Which writes of the host reach the update, and the updates that a host makes by copying a file.
use mynd_firmware.Prelude.{
  ℕ, ◌≤◌, ◌<◌, ◌≡◌, refl, ap, ◌∙◌, Bool, true, false, Bool-cases, inl, inr, List, [], ◌∷◌, All,
  ◌==◌, if◌then◌else◌, arith,
}
use mynd_firmware.Prelude.Memory.{Memory}
use mynd_firmware.Dfu.NonSequential.{magic, magic_number}
use mynd_firmware.Disk.Host.{Block, Writing, t_boot_ram_disk_write_block, write_blocks}

-- Addresses that grow, above a bound.
abbrev pub IsAscending : ℕ → List Block → Type 0
IsAscending low [] = Unit
IsAscending low (block ∷ blocks) = (low < block.address) × IsAscending block.address blocks

abbrev pub is_chunk : Block → Bool
is_chunk block = magic block.buffer == magic_number

abbrev pub IsChunk : Block → Type 0
IsChunk block = is_chunk block ≡ true

abbrev pub chunks_of : List Block → List Block
chunks_of [] = []
chunks_of (block ∷ blocks) =
    let rest = chunks_of blocks in if is_chunk block then block ∷ rest else rest

module _ {B : Type 0} (is_busy : B → Bool) (process_chunk : B → Memory → ℕ → B) where
  unfoldable pub process_all : B → List Block → B
  process_all b [] = b
  process_all b (block ∷ blocks) =
      process_all (process_chunk b block.buffer block.block_length) blocks

  write_above :
      (s : Writing B) (block : Block) (low : ℕ)
      → s.saved_addr ≤ low
      → low < block.address
      → IsChunk block
      → let out = t_boot_ram_disk_write_block is_busy process_chunk s block in
        (out.update ≡ process_chunk s.update block.buffer block.block_length)
        × (out.saved_addr ≤ block.address)
  unfolding t_boot_ram_disk_write_block
  write_above s block low h k c = ground (arith, h, k, c)

  -- A file whose chunks go to growing addresses above those of earlier updates is processed as it is.
  pub write_blocks-ascending :
      (s : Writing B) (blocks : List Block) (low : ℕ)
      → s.saved_addr ≤ low
      → IsAscending low blocks
      → All IsChunk blocks
      → (write_blocks is_busy process_chunk s blocks).update ≡ process_all s.update blocks
  unfolding write_blocks process_all
  write_blocks-ascending s [] low h a c = refl
  write_blocks-ascending s (block ∷ blocks) low h a c =
      let e = write_above s block low h a.0 c.0 in
      let out = t_boot_ram_disk_write_block is_busy process_chunk s block in
      write_blocks-ascending out blocks block.address e.1 a.1 c.1
      ∙ ap (λ b. process_all b blocks) e.0

  write_low :
      (s : Writing B) (block : Block)
      → is_busy s.update ≡ true
      → block.address ≤ s.saved_addr
      → t_boot_ram_disk_write_block is_busy process_chunk s block ≡ s
  unfolding t_boot_ram_disk_write_block
  write_low s block e h = ground (arith, e, h)

  -- While an update runs, writes to addresses that were passed have no effect.
  pub write_blocks_passed :
      (s : Writing B) (blocks : List Block)
      → is_busy s.update ≡ true
      → All (λ block. block.address ≤ s.saved_addr) blocks
      → write_blocks is_busy process_chunk s blocks ≡ s
  unfolding write_blocks
  write_blocks_passed s [] e h = refl
  write_blocks_passed s (block ∷ blocks) e h =
      ap (λ t. write_blocks is_busy process_chunk t blocks) (write_low s block e h.0)
      ∙ write_blocks_passed s blocks e h.1

  write_first :
      (s : Writing B) (block : Block)
      → is_busy s.update ≡ false
      → IsChunk block
      → t_boot_ram_disk_write_block is_busy process_chunk s block
        ≡ record s { update = process_chunk s.update block.buffer block.block_length }
  unfolding t_boot_ram_disk_write_block
  write_first s block e c = ground (arith, e, c)

  write_other :
      (s : Writing B) (block : Block)
      → is_busy s.update ≡ false
      → is_chunk block ≡ false
      → t_boot_ram_disk_write_block is_busy process_chunk s block ≡ s
  unfolding t_boot_ram_disk_write_block
  write_other s block e c = ground (arith, e, c)

  -- Whatever the update is: if it is not busy, and becomes busy with the first block, which begins
  -- with the magic number, then all further blocks at addresses up to the saved one have no effect.
  second_update_ignored :
      (s : Writing B) (first : Block) (blocks : List Block)
      → is_busy s.update ≡ false
      → IsChunk first
      → is_busy (process_chunk s.update first.buffer first.block_length) ≡ true
      → All (λ block. block.address ≤ s.saved_addr) blocks
      → write_blocks is_busy process_chunk s (first ∷ blocks)
        ≡ record s { update = process_chunk s.update first.buffer first.block_length }
  unfolding write_blocks
  second_update_ignored s first blocks e c b h =
      let begun : Writing B = record s {
        update = process_chunk s.update first.buffer first.block_length;
      } in
      let one : t_boot_ram_disk_write_block is_busy process_chunk s first ≡ begun =
        write_first s first e c in
      ap (λ t. write_blocks is_busy process_chunk t blocks) one
      ∙ write_blocks_passed begun blocks b h

  -- When no update is ever under way, the chunks are processed as they come, and other writes ignored.
  pub never_busy :
      (s : Writing B) (blocks : List Block)
      → ((b : B) → is_busy b ≡ false)
      → (write_blocks is_busy process_chunk s blocks).update
        ≡ process_all s.update (chunks_of blocks)
  unfolding write_blocks process_all
  never_busy s [] h = refl
  never_busy s (block ∷ blocks) h =
      let out = t_boot_ram_disk_write_block is_busy process_chunk s block in
      let rest = never_busy out blocks h in
      elim (Bool-cases (is_chunk block)) [
        | inl c ↦ rw (c) (
            rest
            ∙ ap (λ t. process_all t.update (chunks_of blocks))
                (write_first s block (h s.update) c))
        | inr c ↦ rw (c) (
            rest
            ∙ ap (λ t. process_all t.update (chunks_of blocks))
                (write_other s block (h s.update) c))
      ]
