-- ===== src/Disk/Volume.antt =====
-- The volume of t_boot_ram_disk.c: the boot sector, the file allocation table, the root directory and the
-- data, with t_boot_ram_disk_add_file, t_boot_ram_disk_read_block and t_boot_ram_disk_get_capacity.
use mynd_firmware.Prelude.{
  ℕ, zero, suc, ◌+◌, ◌-◌, ◌*◌, ◌/◌, ◌%◌, Bool, ◌&&◌, ◌||◌, List, [], ◌∷◌, ◌++◌, Option, none, some,
  ◌==◌, ltb, leb, if◌then◌else◌,
}
use mynd_firmware.Prelude.Words.{u8_mod, u16_mod, add32}
use mynd_firmware.Prelude.Memory.{Memory, store, load_range, store_range}
use mynd_firmware.Prelude.Int.{ℤ, pos, negsuc}

abbrev pub sector_size : ℕ
sector_size = 512

abbrev pub sector_count : ℕ
sector_count = 16 * 1024 * 1024 / sector_size

abbrev pub root_entry_length : ℕ
root_entry_length = 32

-- One reserved sector, two tables of 127 sectors and 512 directory entries come before the data.
abbrev pub filedata_start_sector : ℕ
filedata_start_sector = 1 + 2 * 127 + 512 * root_entry_length / sector_size

abbrev pub filedata_sector_count : ℕ
filedata_sector_count = 8

-- T_BOOT_RAM_DISK_SIZE, the size of `ramdata`
abbrev pub ram_disk_size : ℕ
ram_disk_size = 4 * 1024

-- `WBVAL` and `QBVAL`
abbrev pub wbval : ℕ → List ℕ
wbval x = x % 256 ∷ x / 256 % 256 ∷ []

abbrev pub qbval : ℕ → List ℕ
qbval x = x % 256 ∷ x / 256 % 256 ∷ x / 65536 % 256 ∷ x / 16777216 % 256 ∷ []

abbrev pub boot_sector : List ℕ
boot_sector =
    0xeb ∷ 0x3c ∷ 0x90 ∷ 0x6d ∷ 0x6b ∷ 0x66 ∷ 0x73 ∷ 0x2e ∷ 0x66 ∷ 0x61 ∷ 0x74 ∷ 0x00 ∷ 0x02 ∷ 0x01
    ∷ 0x01 ∷ 0x00 ∷ 0x02 ∷ 0x00 ∷ 0x02 ∷ 0x00 ∷ 0x80 ∷ 0xf8 ∷ 0x7f ∷ 0x00 ∷ 0x20 ∷ 0x00 ∷ 0x40
    ∷ 0x00 ∷ 0x00 ∷ 0x00 ∷ 0x00 ∷ 0x00 ∷ 0x00 ∷ 0x00 ∷ 0x00 ∷ 0x00 ∷ 0x00 ∷ 0x00 ∷ 0x29 ∷ 0xfc
    ∷ 0x93 ∷ 0x60 ∷ 0x6e ∷ 0x54 ∷ 0x45 ∷ 0x55 ∷ 0x46 ∷ 0x45 ∷ 0x4c ∷ 0x20 ∷ 0x20 ∷ 0x20 ∷ 0x20
    ∷ 0x20 ∷ 0x46 ∷ 0x41 ∷ 0x54 ∷ 0x31 ∷ 0x36 ∷ 0x20 ∷ 0x20 ∷ 0x20 ∷ 0x0e ∷ 0x1f ∷ 0xbe ∷ 0x5b
    ∷ 0x7c ∷ 0xac ∷ 0x22 ∷ 0xc0 ∷ 0x74 ∷ 0x0b ∷ 0x56 ∷ 0xb4 ∷ 0x0e ∷ 0xbb ∷ 0x07 ∷ 0x00 ∷ 0xcd
    ∷ 0x10 ∷ 0x5e ∷ 0xeb ∷ 0xf0 ∷ 0x32 ∷ 0xe4 ∷ 0xcd ∷ 0x16 ∷ 0xcd ∷ 0x19 ∷ 0xeb ∷ 0xfe ∷ []

-- The bytes of the table that are not 0, and the offset behind the table.
abbrev pub fat_sector : List ℕ
fat_sector = 0xf8 ∷ 0xff ∷ 0xff ∷ 0xff ∷ []

-- The entry of the volume label, behind which the directory is 0.
abbrev pub volume_label : List ℕ
volume_label =
    0x54 ∷ 0x45 ∷ 0x55 ∷ 0x46 ∷ 0x45 ∷ 0x4c ∷ 0x20 ∷ 0x20 ∷ 0x20 ∷ 0x20 ∷ 0x20 ∷ 0x08 ∷ 0x00 ∷ 0x00
    ∷ 0xa3 ∷ 0x54 ∷ 0x77 ∷ 0x50 ∷ 0x77 ∷ 0x50 ∷ 0x00 ∷ 0x00 ∷ 0xa3 ∷ 0x54 ∷ 0x77 ∷ 0x50 ∷ 0x00
    ∷ 0x00 ∷ 0x00 ∷ 0x00 ∷ 0x00 ∷ 0x00 ∷ []

-- The statics of the file. `dir_sector` and `ramdata` are what memory holds from the start of the arrays on.
pub record Disk : Type 0 where
  pub next_free_dynamic_cluster : ℕ
  pub num_dir_entries : ℕ
  pub dir_sector : Memory
  pub ramdata : Memory

abbrev pub is_between : ℕ → ℕ → ℕ → Bool
is_between low high c = leb low c && leb c high

-- One character of a name: upper case, or the replacement for what is no letter.
unfoldable pub fat_char : ℕ → ℕ
fat_char c = if is_between 0x41 0x5a c then c else if is_between 0x61 0x7a c then c - 0x20 else 0x7e

-- The string without its terminator; the number of characters comes first.
unfoldable pub write_fat_string : ℕ → List ℕ → List ℕ
write_fat_string zero string = []
write_fat_string (suc n) [] = 0x20 ∷ write_fat_string n []
write_fat_string (suc n) (c ∷ string) = fat_char c ∷ write_fat_string n string

-- From the attributes to the date.
abbrev pub entry_middle : List ℕ
entry_middle =
    0x01 ∷ 0x18 ∷ 0x0f ∷ 0x13 ∷ 0x75 ∷ 0x72 ∷ 0x4e ∷ 0x72 ∷ 0x4e ∷ 0x00 ∷ 0x00 ∷ 0xca ∷ 0x33 ∷ 0x72
    ∷ 0x4e ∷ []

-- `dirEntry_t`
unfoldable pub dir_entry : List ℕ → List ℕ → ℕ → ℕ → List ℕ
dir_entry name extension cluster size =
    (write_fat_string 8 name ++ write_fat_string 3 extension)
    ++ (entry_middle ++ wbval cluster ++ qbval size)

abbrev pub data_offset : Disk → ℕ
data_offset d = (d.next_free_dynamic_cluster - 2) * sector_size

-- `p_data` is null, or points at the file.
unfoldable pub t_boot_ram_disk_add_file : List ℕ → List ℕ → Option Memory → ℕ → Disk → ℤ × Disk
t_boot_ram_disk_add_file name extension none length d = (negsuc 0, d)
t_boot_ram_disk_add_file name extension (some p_data) length d =
    let listed : Disk = record d {
      dir_sector =
          store_range d.dir_sector (d.num_dir_entries * root_entry_length)
            (dir_entry name extension d.next_free_dynamic_cluster length);
    } in
    if ltb ram_disk_size (add32 (data_offset d) length) then (negsuc 0, listed) else (
      pos 0,
      record listed {
        ramdata = store_range d.ramdata (data_offset d) (load_range p_data 0 length);
        next_free_dynamic_cluster = (d.next_free_dynamic_cluster + 1) % u16_mod;
        num_dir_entries = (d.num_dir_entries + 1) % u8_mod;
      },
    )

-- The buffer after `memset(p_buffer, 0, SECTOR_SIZE)`.
abbrev pub cleared : Memory → Memory
cleared p_buffer i = if ltb i sector_size then 0 else p_buffer i

-- What the call leaves in the buffer; it always returns 0.
unfoldable pub t_boot_ram_disk_read_block : Disk → Memory → ℕ → Memory
t_boot_ram_disk_read_block d p_buffer block_address =
    if block_address == 0
    then store (store (store_range (cleared p_buffer) 0 boot_sector) 510 0x55) 511 0xaa
    else if (block_address == 1) || (block_address == 127)
    then store_range (cleared p_buffer) 0 fat_sector
    else if block_address == 255
    then store_range (cleared p_buffer) 0 (load_range d.dir_sector 0 sector_size)
    else if leb filedata_start_sector block_address
        && ltb block_address (filedata_start_sector + filedata_sector_count)
    then store_range (cleared p_buffer) 0
        (load_range d.ramdata ((block_address - filedata_start_sector) * sector_size) sector_size)
    else cleared p_buffer

-- The number of blocks and their size.
unfoldable pub t_boot_ram_disk_get_capacity : ℕ × ℕ
t_boot_ram_disk_get_capacity = (sector_count, sector_size)

abbrev initial_dir : Memory
initial_dir = store_range (λ i. 0) 0 volume_label

-- The statics before the first call.
abbrev pub initial_disk : Disk
initial_disk = record {
  next_free_dynamic_cluster = 2;
  num_dir_entries = 1;
  dir_sector = initial_dir;
  ramdata = λ i. 0;
}
