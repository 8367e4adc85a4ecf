-- ===== src/Disk/Tests.antt =====
-- The RAM disk at concrete inputs.
use mathlib.Core.List.{reverse}
use mynd_firmware.Prelude.{ℕ, ◌≡◌, refl, List, [], ◌∷◌, ◌++◌, arith}
use mynd_firmware.Prelude.Memory.{Memory, load_range}
use mynd_firmware.Prelude.Int.{pos}
use mynd_firmware.Dfu.Sequential.{Boot, finished, t_boot_dfu_is_busy}
use mynd_firmware.Dfu.NonSequential.{Scattered}
use mynd_firmware.Dfu.Safety.{flashed}
use mynd_firmware.Dfu.Image.{image_data}
use mynd_firmware.Dfu.Tests
use mynd_firmware.Dfu.PlacementTests
use mynd_firmware.Disk.Volume.{initial_disk}
use mynd_firmware.Disk.Host.{Block, Writing, write_blocks}
use mynd_firmware.Disk.Files.{File, add, IsWithin}
use mynd_firmware.Disk.Contents.{KeepsBehind, add_all, add_all-KeepsBehind}
use mynd_firmware.Disk.Reading.{host_file, host_file-add_all}
use mynd_firmware.Disk.Updates.{process_sequential, image_file}

initial_disk-IsWithin : IsWithin initial_disk
initial_disk-IsWithin = record { entries = refl; first = omega arith; last = omega arith }

abbrev file : ℕ → ℕ → File
file byte size = record {
  name = b'i' ∷ b'd' ∷ [];
  extension = b't' ∷ [];
  contents = λ i. byte;
  size = size;
}

add_all-KeepsBehind_example :
    let d = add_all (file 1 4000 ∷ file 2 5000 ∷ file 3 90 ∷ []) initial_disk in
    IsWithin d × KeepsBehind initial_disk d
add_all-KeepsBehind_example =
    add_all-KeepsBehind (file 1 4000 ∷ file 2 5000 ∷ file 3 90 ∷ []) initial_disk
      initial_disk-IsWithin (omega arith, (omega arith, (omega arith, tt)))

host_file-add_all_example :
    ((add (file 7 3) initial_disk).0 ≡ pos 0)
    × (host_file (add_all (file 8 500 ∷ []) (add (file 7 3) initial_disk).1) 1
        ≡ load_range (λ i. 7) 0 3)
host_file-add_all_example =
    host_file-add_all (file 7 3) (file 8 500 ∷ []) initial_disk initial_disk-IsWithin (omega arith)
      (omega arith) (omega arith, tt)

abbrev block : ℕ → Memory → ℕ → Block
block address buffer block_length = record {
  address = address;
  buffer = buffer;
  block_length = block_length;
}

abbrev booted : Writing Boot
booted = record { saved_addr = 0; update = Tests.fresh }

abbrev image_blocks : List Block
image_blocks =
    block 300 Tests.init_packet 16
    ∷ block 301 Tests.fw_header_packet 16
    ∷ block 302 Tests.first_chunk 18
    ∷ block 303 Tests.second_chunk 17
    ∷ []

image_file_example :
    let s' =
      (write_blocks t_boot_dfu_is_busy
        (process_sequential Tests.config)
        booted
        image_blocks).update in
    (s'.state ≡ finished)
    × (reverse (flashed s'.log)
        ≡ reverse (flashed Tests.fresh.log) ++ image_data Tests.config 0 (Tests.part ∷ []))
image_file_example =
    image_file Tests.config 0 booted image_blocks (Tests.init_packet, 16) Tests.part []
      (omega arith) refl Tests.init_packet-IsInit (Tests.part-IsPart, tt) (omega arith) refl
      (refl, (refl, (refl, (refl, tt))))
      (omega arith, (omega arith, (omega arith, (omega arith, tt))))

abbrev scattered : Writing Scattered
scattered = record { saved_addr = 0; update = PlacementTests.fresh }

-- The second chunk first, and between the two a sector of the directory.
abbrev scattered_blocks : List Block
scattered_blocks =
    block 301 (PlacementTests.chunk 1 2 7 8) 18
    ∷ block 255 (λ i. 0) 1
    ∷ block 300 (PlacementTests.chunk 1 1 5 6) 18
    ∷ []
