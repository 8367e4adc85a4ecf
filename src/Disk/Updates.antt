-- ===== src/Disk/Updates.antt =====
-- Firmware updates as a host makes them, by writing the file to the RAM disk: t_boot_ram_disk_write_block over
-- each of the two modes of t_boot_dfu.c.
use mathlib.Core.List.{reverse}
use mynd_firmware.Prelude.{
  ℕ, ◌<◌, ◌≡◌, refl, ap, ◌∙◌, Bool, false, List, [], ◌∷◌, ◌++◌, map, length, All, arith,
}
use mynd_firmware.Prelude.Memory.{Memory}
use mynd_firmware.Dfu.Types.{Config}
use mynd_firmware.Dfu.Sequential.{
  Boot, wait_init, finished, t_boot_dfu_is_busy, t_boot_dfu_sequential_process_chunk,
}
use mynd_firmware.Dfu.Safety.{flashed}
use mynd_firmware.Dfu.Faults.{run}
use mynd_firmware.Dfu.Image.{Part, IsPart, IsInit, packets_of, image_data, run_image}
use mynd_firmware.Dfu.NonSequential.{Scattered, t_boot_dfu_non_sequential_process_chunk}
use mynd_firmware.Disk.Host.{Block, Writing, write_blocks}
use mynd_firmware.Disk.Writes.{IsAscending, IsChunk, process_all, write_blocks-ascending}

abbrev pub packet_of : Block → Memory × ℕ
packet_of block = (block.buffer, block.block_length)

-- t_boot_dfu_process_chunk as it is built for the one mode and for the other; its result is not used.
abbrev pub process_sequential : Config → Boot → Memory → ℕ → Boot
process_sequential config s buffer length =
    (t_boot_dfu_sequential_process_chunk config s buffer length).1

abbrev pub process_scattered : Config → Scattered → Memory → ℕ → Scattered
process_scattered config s buffer length =
    (t_boot_dfu_non_sequential_process_chunk config s buffer length).1

-- The non-sequential mode leaves `m_boot.state` as t_boot_dfu_init sets it.
abbrev pub scattered_is_busy : Scattered → Bool
scattered_is_busy s = false

process_all-sequential :
    (config : Config) (s : Boot) (blocks : List Block)
    → process_all t_boot_dfu_is_busy (process_sequential config) s blocks
      ≡ run config s (map packet_of blocks)
unfolding process_all run
process_all-sequential config s [] = refl
process_all-sequential config s (block ∷ blocks) =
    process_all-sequential config (process_sequential config s block.buffer block.block_length)
      blocks

-- Take an image as in Dfu.Image.run_image, each of its packets in a block that begins with the magic
-- number. If the update awaits the first packet and the host writes the blocks in order to growing
-- addresses above the saved one, then in the sequential mode the update is finished in the end, and
-- the targets have been handed the data of the image behind what they had been handed before.
pub image_file :
    (config : Config) (encryption : ℕ) (s : Writing Boot) (blocks : List Block) (init : Memory × ℕ)
    (part : Part) (parts : List Part)
    → encryption < 2
    → s.update.state ≡ wait_init
    → IsInit config encryption (length (part ∷ parts)) init
    → All (IsPart config encryption) (part ∷ parts)
    → length (part ∷ parts) < 256
    → map packet_of blocks ≡ init ∷ packets_of (part ∷ parts)
    → All IsChunk blocks
    → IsAscending s.saved_addr blocks
    → let s' = (write_blocks t_boot_dfu_is_busy (process_sequential config) s blocks).update in
      (s'.state ≡ finished)
      × (reverse (flashed s'.log)
          ≡ reverse (flashed s.update.log) ++ image_data config encryption (part ∷ parts))
image_file config encryption s blocks init part parts known e i h n carried chunks ascending =
    let whole = run_image config encryption s.update init part parts known e i h n in
    let path : (write_blocks t_boot_dfu_is_busy (process_sequential config) s blocks).update
        ≡ run config s.update (init ∷ packets_of (part ∷ parts)) =
      write_blocks-ascending t_boot_dfu_is_busy (process_sequential config) s blocks s.saved_addr
        (omega arith) ascending chunks
      ∙ process_all-sequential config s.update blocks
      ∙ ap (run config s.update) carried in
    rw (path) whole

run_packets : Config → Scattered → List (Memory × ℕ) → Scattered
run_packets config s [] = s
run_packets config s (p ∷ packets) = run_packets config (process_scattered config s p.0 p.1) packets
