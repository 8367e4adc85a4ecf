-- ===== src/Disk/Host.antt =====
-- What the host writes to the RAM disk: t_boot_ram_disk_write_block over the update. The two functions of
-- t_boot_dfu.c that it calls are parameters, for the sake of the two modes of the update.
use mynd_firmware.Prelude.{ℕ, Bool, ◌&&◌, List, [], ◌∷◌, ◌==◌, leb, if◌then◌else◌}
use mynd_firmware.Prelude.Memory.{Memory}
use mynd_firmware.Dfu.NonSequential.{magic, magic_number}

-- A write of the host; the length is what the USB stack passes.
pub record Block : Type 0 where
  pub address : ℕ
  pub buffer : Memory
  pub block_length : ℕ

-- The static of the function, and the state of the update.
pub record Writing (B : Type 0) : Type 0 where
  pub saved_addr : ℕ
  pub update : B

module _ {B : Type 0} (is_busy : B → Bool) (process_chunk : B → Memory → ℕ → B) where
  unfoldable pub t_boot_ram_disk_write_block : Writing B → Block → Writing B
  t_boot_ram_disk_write_block s block =
      let busy = is_busy s.update in
      let noted = if busy then record s { saved_addr = block.address } else s in
      let processed = record noted {
        update = process_chunk s.update block.buffer block.block_length;
      } in
      if busy && leb block.address s.saved_addr
      then s
      else if magic block.buffer == magic_number
      then processed
      else noted

  -- A sequence of writes.
  unfoldable pub write_blocks : Writing B → List Block → Writing B
  write_blocks s [] = s
  write_blocks s (block ∷ blocks) = write_blocks (t_boot_ram_disk_write_block s block) blocks
