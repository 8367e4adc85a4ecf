-- ===== src/Disk/Files.antt =====
-- The files of the RAM disk: the arrays that t_boot_ram_disk_add_file writes to, and what a host finds
-- that reads the directory and the data.
use mynd_firmware.Prelude.{
  ℕ, zero, suc, ◌+◌, ◌*◌, ◌≤◌, ◌<◌, ◌≡◌, ◌⊎◌, refl, sym, ap, ◌∙◌, Bool-cases, inl, inr, List, [],
  ◌∷◌, ◌++◌, length, length-append, get_or, get_or-append_right, some, ltb, arith,
}
use mynd_firmware.Prelude.Words.{u32_mod}
use mynd_firmware.Prelude.Memory.{
  Memory, load_range, store_range, store_range_at, load_u16, load_u32,
}
use mynd_firmware.Prelude.Int.{ℤ, pos, negsuc}
use mynd_firmware.Disk.Volume.{
  ram_disk_size, entry_middle, wbval, qbval, Disk, write_fat_string, dir_entry, data_offset,
  t_boot_ram_disk_add_file,
}

length-write_fat_string : (n : ℕ) (s : List ℕ) → length (write_fat_string n s) ≡ n
unfolding write_fat_string
length-write_fat_string zero s = refl
length-write_fat_string (suc n) [] = ap suc (length-write_fat_string n [])
length-write_fat_string (suc n) (c ∷ s) = ap suc (length-write_fat_string n s)

entry_fields : ℕ → ℕ → List ℕ
entry_fields cluster size = entry_middle ++ wbval cluster ++ qbval size

length-names :
    (name extension : List ℕ)
    → length (write_fat_string 8 name ++ write_fat_string 3 extension) ≡ 11
length-names name extension = omega (
  arith,
  length-append (write_fat_string 8 name) (write_fat_string 3 extension),
  length-write_fat_string 8 name,
  length-write_fat_string 3 extension,
)

pub length-dir_entry :
    (name extension : List ℕ) (cluster size : ℕ)
    → length (dir_entry name extension cluster size) ≡ 32
unfolding dir_entry entry_fields
length-dir_entry name extension cluster size = omega (
  arith,
  length-append (write_fat_string 8 name ++ write_fat_string 3 extension)
      (entry_fields cluster size),
  length-names name extension,
)

dir_entry_at :
    (name extension : List ℕ) (cluster size k : ℕ)
    → get_or (dir_entry name extension cluster size) (11 + k) 0
      ≡ get_or (entry_fields cluster size) k 0
unfolding dir_entry entry_fields
dir_entry_at name extension cluster size k =
    let names = write_fat_string 8 name ++ write_fat_string 3 extension in
    ap (λ n. get_or (names ++ entry_fields cluster size) (n + k) 0)
      (sym (length-names name extension))
    ∙ get_or-append_right names (entry_fields cluster size) k 0

-- A byte of an entry that was copied into the directory.
copied_entry_at :
    (m : Memory) (offset : ℕ) (name extension : List ℕ) (cluster size k : ℕ)
    → k < 21
    → store_range m offset (dir_entry name extension cluster size) (offset + (11 + k))
      ≡ get_or (entry_fields cluster size) k 0
copied_entry_at m offset name extension cluster size k h =
    store_range_at m offset (dir_entry name extension cluster size) (11 + k) 0
      (omega (arith, h, length-dir_entry name extension cluster size))
    ∙ dir_entry_at name extension cluster size k

pub copied_cluster :
    (m : Memory) (offset : ℕ) (name extension : List ℕ) (cluster size : ℕ)
    → cluster < 65536
    → load_u16 (store_range m offset (dir_entry name extension cluster size)) (offset + 26)
      ≡ cluster
unfolding entry_fields
copied_cluster m offset name extension cluster size h =
    let at = copied_entry_at m offset name extension cluster size in
    let e : offset + 26 + 1 ≡ offset + 27 = omega arith in
    rw (e) (omega (arith, h, at 15 (omega arith), at 16 (omega arith)))

pub copied_size :
    (m : Memory) (offset : ℕ) (name extension : List ℕ) (cluster size : ℕ)
    → size < u32_mod
    → load_u32 (store_range m offset (dir_entry name extension cluster size)) (offset + 28) ≡ size
unfolding entry_fields
copied_size m offset name extension cluster size h =
    let at = copied_entry_at m offset name extension cluster size in
    let e : (offset + 28 + 1 ≡ offset + 29)
        × (offset + 28 + 2 ≡ offset + 30)
        × (offset + 28 + 3 ≡ offset + 31) =
      omega arith in
    rw (e.0, e.1, e.2)
      (omega (
        arith,
        h,
        at 17 (omega arith),
        at 18 (omega arith),
        at 19 (omega arith),
        at 20 (omega arith),
      ))

-- The clusters and the directory entries are counted together.
pub record IsWithin (d : Disk) : Type 0 where
  pub entries : d.next_free_dynamic_cluster ≡ d.num_dir_entries + 1
  pub first : 1 ≤ d.num_dir_entries
  pub last : d.num_dir_entries ≤ 10

-- The arguments of t_boot_ram_disk_add_file.
pub record File : Type 0 where
  pub name : List ℕ
  pub extension : List ℕ
  pub contents : Memory
  pub size : ℕ

abbrev pub add : File → Disk → ℤ × Disk
add f d = t_boot_ram_disk_add_file f.name f.extension (some f.contents) f.size d

-- `data_offset + length` does not wrap around.
abbrev pub IsMeasured : File → Type 0
IsMeasured f = f.size + 4608 < u32_mod

abbrev pub listed_dir : File → Disk → Memory
listed_dir f d =
    store_range d.dir_sector (d.num_dir_entries * 32)
      (dir_entry f.name f.extension d.next_free_dynamic_cluster f.size)

abbrev pub listed : File → Disk → Disk
listed f d = record d { dir_sector = listed_dir f d }

abbrev pub added : File → Disk → Disk
added f d = record d {
  dir_sector = listed_dir f d;
  ramdata = store_range d.ramdata (data_offset d) (load_range f.contents 0 f.size);
  next_free_dynamic_cluster = d.next_free_dynamic_cluster + 1;
  num_dir_entries = d.num_dir_entries + 1;
}

pub add_cases :
    (f : File) (d : Disk)
    → IsWithin d
    → IsMeasured f
    → ((data_offset d + f.size ≤ ram_disk_size) × (add f d ≡ (pos 0, added f d)))
      ⊎ ((ram_disk_size < data_offset d + f.size) × (add f d ≡ (negsuc 0, listed f d)))
unfolding t_boot_ram_disk_add_file
add_cases f d w h = elim (Bool-cases (ltb ram_disk_size (data_offset d + f.size))) [
  | inl e ↦ inr (ground (arith, e, w.entries, w.last, h))
  | inr e ↦ inl (ground (arith, e, w.entries, w.last, h))
]
