-- ===== src/Disk/Contents.antt =====
-- What calls of t_boot_ram_disk_add_file write, and what a host reads of the files.
use mynd_firmware.Prelude.{
  ℕ, ◌+◌, ◌-◌, ◌*◌, ◌≤◌, ◌<◌, ◌≡◌, refl, ap, ◌∙◌, inl, inr, List, [], ◌∷◌, All, false, ltb, arith,
}
use mynd_firmware.Prelude.Memory.{
  Memory, load_range, length-load_range, store_range_at, store_range_below, store_range_behind,
  get_or-load_range, load_u16, load_u32, load_u16_eq, load_u32_eq,
}
use mynd_firmware.Prelude.Words.{u32_mod, add32}
use mynd_firmware.Prelude.Int.{pos}
use mynd_firmware.Disk.Volume.{
  t_boot_ram_disk_add_file, sector_size, ram_disk_size, Disk, dir_entry, data_offset,
}
use mynd_firmware.Disk.Files.{
  IsWithin, File, add, IsMeasured, listed_dir, added, add_cases, length-dir_entry, copied_cluster,
  copied_size,
}

-- Memory behind the two arrays is as it was.
pub record KeepsBehind (d d' : Disk) : Type 0 where
  pub dir : (i : ℕ) → sector_size ≤ i → d'.dir_sector i ≡ d.dir_sector i
  pub ram : (i : ℕ) → ram_disk_size ≤ i → d'.ramdata i ≡ d.ramdata i

listed_dir_behind :
    (f : File) (d : Disk) (i : ℕ)
    → d.num_dir_entries * 32 + 32 ≤ i
    → listed_dir f d i ≡ d.dir_sector i
listed_dir_behind f d i h =
    store_range_behind d.dir_sector (d.num_dir_entries * 32)
      (dir_entry f.name f.extension d.next_free_dynamic_cluster f.size) i
      (omega (arith, h, length-dir_entry f.name f.extension d.next_free_dynamic_cluster f.size))

data_behind :
    (f : File) (d : Disk) (i : ℕ) → data_offset d + f.size ≤ i → (added f d).ramdata i ≡ d.ramdata i
data_behind f d i h =
    store_range_behind d.ramdata (data_offset d) (load_range f.contents 0 f.size) i
      (omega (arith, h, length-load_range f.contents 0 f.size))

pub add-KeepsBehind :
    (f : File) (d : Disk)
    → IsWithin d
    → IsMeasured f
    → IsWithin (add f d).1 × KeepsBehind d (add f d).1
add-KeepsBehind f d w h = elim (add_cases f d w h) [
  | inl (fits, e) ↦ rw (e) (
    record {
      entries = omega (arith, w.entries);
      first = omega arith;
      last = omega (arith, fits, w.entries, w.first);
    },
    record {
      dir = λ i k. listed_dir_behind f d i (omega (arith, w.last, k));
      ram = λ i k. data_behind f d i (omega (arith, fits, k));
    },
  )
  | inr (full, e) ↦ rw (e) (
    record { entries = w.entries; first = w.first; last = w.last },
    record { dir = λ i k. listed_dir_behind f d i (omega (arith, w.last, k)); ram = λ i k. refl },
  )
]

unfoldable pub add_all : List File → Disk → Disk
add_all [] d = d
add_all (f ∷ files) d = add_all files (add f d).1

-- If the clusters and entries are counted as they are from the start, then adding any files of lengths
-- that do not wrap around, accepted or not, keeps that count, with at most ten entries, and changes no
-- byte behind the directory sector or behind the data.
pub add_all-KeepsBehind :
    (files : List File) (d : Disk)
    → IsWithin d
    → All IsMeasured files
    → IsWithin (add_all files d) × KeepsBehind d (add_all files d)
unfolding add_all
add_all-KeepsBehind [] d w h = (w, record { dir = λ i k. refl; ram = λ i k. refl })
add_all-KeepsBehind (f ∷ files) d w h =
    let one = add-KeepsBehind f d w h.0 in
    let rest = add_all-KeepsBehind files (add f d).1 one.0 h.1 in
    (
      rest.0,
      record {
        dir = λ i k. rest.1.dir i k ∙ one.1.dir i k;
        ram = λ i k. rest.1.ram i k ∙ one.1.ram i k;
      },
    )

-- A length for which `data_offset + length` wraps around to at most the size of the data is accepted, and every byte
-- of the file is copied, those behind the data too.
wrapped_length_accepted :
    (f : File) (d : Disk) (j : ℕ)
    → u32_mod ≤ data_offset d + f.size
    → data_offset d + f.size ≤ u32_mod + ram_disk_size
    → j < f.size
    → ((add f d).0 ≡ pos 0) × ((add f d).1.ramdata (data_offset d + j) ≡ f.contents j)
unfolding t_boot_ram_disk_add_file
wrapped_length_accepted f d j wraps room h =
    let fits : ltb ram_disk_size (add32 (data_offset d) f.size) ≡ false =
      ground (arith, wraps, room) in
    rw (fits) (
      refl,
      store_range_at d.ramdata (data_offset d) (load_range f.contents 0 f.size) j 0
            (omega (arith, h, length-load_range f.contents 0 f.size))
          ∙ get_or-load_range f.contents 0 f.size j 0 h
          ∙ ap f.contents (omega arith),
    )

-- A file of at most a sector, as entry k of the directory and in the cluster that the entry names.
pub record IsStored (d : Disk) (k : ℕ) (contents : Memory) (size : ℕ) : Type 0 where
  pub first : 1 ≤ k
  pub counted : k < d.num_dir_entries
  pub cluster : load_u16 d.dir_sector (k * 32 + 26) ≡ k + 1
  pub length_field : load_u32 d.dir_sector (k * 32 + 28) ≡ size
  pub small : size ≤ sector_size
  pub fits : (k - 1) * 512 + size ≤ ram_disk_size
  pub bytes : (j : ℕ) → j < size → d.ramdata ((k - 1) * 512 + j) ≡ contents j

pub added-IsStored :
    (f : File) (d : Disk)
    → IsWithin d
    → data_offset d + f.size ≤ ram_disk_size
    → f.size ≤ sector_size
    → IsStored (added f d) d.num_dir_entries f.contents f.size
added-IsStored f d w fits small = record {
  first = w.first;
  counted = omega arith;
  cluster =
      copied_cluster d.dir_sector (d.num_dir_entries * 32) f.name f.extension
        d.next_free_dynamic_cluster f.size (omega (arith, w.entries, w.last))
      ∙ w.entries;
  length_field =
      copied_size d.dir_sector (d.num_dir_entries * 32) f.name f.extension
        d.next_free_dynamic_cluster f.size (omega (arith, small));
  small = small;
  fits = omega (arith, fits, w.entries);
  bytes = λ j h.
      let e : (d.num_dir_entries - 1) * 512 + j ≡ data_offset d + j = omega (arith, w.entries) in
      rw (e) (
        store_range_at d.ramdata (data_offset d) (load_range f.contents 0 f.size) j 0
          (omega (arith, h, length-load_range f.contents 0 f.size))
        ∙ get_or-load_range f.contents 0 f.size j 0 h
        ∙ ap f.contents (omega arith));
}

listed_dir_below :
    (f : File) (d : Disk) (i : ℕ) → i < d.num_dir_entries * 32 → listed_dir f d i ≡ d.dir_sector i
listed_dir_below f d i h =
    store_range_below d.dir_sector (d.num_dir_entries * 32)
      (dir_entry f.name f.extension d.next_free_dynamic_cluster f.size) i h

-- Adding another file keeps it.
pub add_keeps_IsStored :
    (f : File) (d : Disk) (k : ℕ) (contents : Memory) (size : ℕ)
    → IsWithin d
    → IsMeasured f
    → IsStored d k contents size
    → IsStored (add f d).1 k contents size
add_keeps_IsStored f d k contents size w m h =
    let below =
      λ (i : ℕ) (p : i < k * 32 + 32). listed_dir_below f d i (omega (arith, h.counted, p)) in
    let cluster : load_u16 (listed_dir f d) (k * 32 + 26) ≡ k + 1 =
      load_u16_eq (listed_dir f d) d.dir_sector (k * 32 + 26) (λ i p. below i (omega (arith, p)))
      ∙ h.cluster in
    let length_field : load_u32 (listed_dir f d) (k * 32 + 28) ≡ size =
      load_u32_eq (listed_dir f d) d.dir_sector (k * 32 + 28) (λ i p. below i (omega (arith, p)))
      ∙ h.length_field in
    elim (add_cases f d w m) [
      | inl (fits, e) ↦ rw (e) record {
        first = h.first;
        counted = omega (arith, h.counted);
        cluster = cluster;
        length_field = length_field;
        small = h.small;
        fits = h.fits;
        bytes = λ j p.
            store_range_below d.ramdata (data_offset d) (load_range f.contents 0 f.size)
              ((k - 1) * 512 + j) (omega (arith, h.first, h.counted, p, h.small, w.entries))
            ∙ h.bytes j p;
      }
      | inr (full, e) ↦ rw (e) record {
        first = h.first;
        counted = h.counted;
        cluster = cluster;
        length_field = length_field;
        small = h.small;
        fits = h.fits;
        bytes = h.bytes;
      }
    ]
