-- ===== src/Disk/Reading.antt =====
-- What a host reads of the files of the RAM disk, by the directory and the data sectors of t_boot_ram_disk_read_block.
use mynd_firmware.Prelude.{
  ℕ, ◌+◌, ◌-◌, ◌*◌, ◌≤◌, ◌<◌, ◌≡◌, refl, ap, ◌∙◌, inl, inr, List, [], ◌∷◌, All, arith,
}
use mynd_firmware.Prelude.Memory.{
  Memory, load_range, store_range, length-load_range, store_range_at, load_range_eq,
  get_or-load_range, load_u16, load_u32, load_u16_eq, load_u32_eq,
}
use mynd_firmware.Prelude.Int.{pos, negsuc}
use mynd_firmware.Disk.Volume.{
  sector_size, filedata_start_sector, filedata_sector_count, ram_disk_size, Disk, data_offset,
  cleared, t_boot_ram_disk_read_block,
}
use mynd_firmware.Disk.Files.{
  IsWithin, File, add, IsMeasured, added, add_cases, copied_cluster, copied_size,
}
use mynd_firmware.Disk.Contents.{
  add_all, IsStored, added-IsStored, add_keeps_IsStored, add-KeepsBehind,
}

-- A host's buffer.
abbrev pub blank : Memory
blank i = 0

abbrev pub sector : Disk → ℕ → Memory
sector d address = t_boot_ram_disk_read_block d blank address

-- The layout that the boot sector describes: the directory begins in sector 255 and cluster 2 is the
-- first of the data sectors; a file of at most a sector lies in its first cluster.
pub host_file : Disk → ℕ → List ℕ
host_file d k =
    let cluster = load_u16 (sector d 255) (k * 32 + 26) in
    let size = load_u32 (sector d 255) (k * 32 + 28) in
    load_range (sector d (filedata_start_sector + (cluster - 2))) 0 size

read_copied :
    (m buffer : Memory) (i j : ℕ)
    → j < 512
    → store_range buffer 0 (load_range m i 512) j ≡ m (i + j)
read_copied m buffer i j h =
    ap (store_range buffer 0 (load_range m i 512)) (omega arith)
    ∙ store_range_at buffer 0 (load_range m i 512) j 0 (omega (arith, h, length-load_range m i 512))
    ∙ get_or-load_range m i 512 j 0 h

sector_of_dir : (d : Disk) (j : ℕ) → j < 512 → sector d 255 j ≡ d.dir_sector j
unfolding t_boot_ram_disk_read_block
sector_of_dir d j h = read_copied d.dir_sector (cleared blank) 0 j h ∙ ap d.dir_sector (omega arith)

sector_of_data :
    (d : Disk) (k j : ℕ)
    → k < filedata_sector_count
    → j < 512
    → sector d (filedata_start_sector + k) j ≡ d.ramdata (k * 512 + j)
unfolding t_boot_ram_disk_read_block
sector_of_data d k j h p = ground (arith, h, read_copied d.ramdata (cleared blank) (k * 512) j p)

host_file_lem :
    (d : Disk) (k : ℕ) (contents : Memory) (size : ℕ)
    → IsWithin d
    → IsStored d k contents size
    → host_file d k ≡ load_range contents 0 size
unfolding host_file
host_file_lem d k contents size w h =
    let dir = λ (j : ℕ) (p : j < 512). sector_of_dir d j p in
    let cluster : load_u16 (sector d 255) (k * 32 + 26) ≡ k + 1 =
      load_u16_eq (sector d 255) d.dir_sector (k * 32 + 26)
        (λ j p. dir j (omega (arith, p, h.counted, w.last)))
      ∙ h.cluster in
    let length_field : load_u32 (sector d 255) (k * 32 + 28) ≡ size =
      load_u32_eq (sector d 255) d.dir_sector (k * 32 + 28)
        (λ j p. dir j (omega (arith, p, h.counted, w.last)))
      ∙ h.length_field in
    rw (cluster, length_field)
      (load_range_eq (sector d (filedata_start_sector + (k + 1 - 2))) contents 0 size (λ j p q.
        let e : k + 1 - 2 ≡ k - 1 = omega arith in
        rw (e) (
          sector_of_data d (k - 1) j (omega (arith, h.fits, q, h.first)) (omega (arith, h.small, q))
          ∙ h.bytes j (omega (arith, q)))))

add_all_keeps_IsStored :
    (files : List File) (d : Disk) (k : ℕ) (contents : Memory) (size : ℕ)
    → IsWithin d
    → All IsMeasured files
    → IsStored d k contents size
    → IsWithin (add_all files d) × IsStored (add_all files d) k contents size
unfolding add_all
add_all_keeps_IsStored [] d k contents size w m h = (w, h)
add_all_keeps_IsStored (f ∷ files) d k contents size w m h =
    add_all_keeps_IsStored files (add f d).1 k contents size (add-KeepsBehind f d w m.0).0 m.1
      (add_keeps_IsStored f d k contents size w m.0 h)

add_fits :
    (f : File) (d : Disk)
    → IsWithin d
    → data_offset d + f.size ≤ ram_disk_size
    → add f d ≡ (pos 0, added f d)
add_fits f d w fits = elim (add_cases f d w (omega (arith, fits))) [
  | inl (k, e) ↦ e
  | inr (k, e) ↦ absurd (omega (arith, fits, k))
]

-- If the clusters and entries are counted as they are from the start, a file of at most a sector that
-- fits in the data is accepted, and a host that follows its entry of the directory reads its bytes,
-- whatever files of lengths that do not wrap around are added later, accepted or not.
pub host_file-add_all :
    (f : File) (files : List File) (d : Disk)
    → IsWithin d
    → f.size ≤ sector_size
    → data_offset d + f.size ≤ ram_disk_size
    → All IsMeasured files
    → ((add f d).0 ≡ pos 0)
      × (host_file (add_all files (add f d).1) d.num_dir_entries ≡ load_range f.contents 0 f.size)
host_file-add_all f files d w small fits m = rw (add_fits f d w fits) (
  refl,
  (let stored = added-IsStored f d w fits small in
      let within : IsWithin (added f d) = record {
        entries = omega (arith, w.entries);
        first = omega arith;
        last = omega (arith, fits, w.entries, w.first);
      } in
      let later =
        add_all_keeps_IsStored files (added f d) d.num_dir_entries f.contents f.size within m
          stored in
      host_file_lem (add_all files (added f d)) d.num_dir_entries f.contents f.size later.0
        later.1),
)

-- If the clusters and entries are counted as they are from the start, a file that does not fit in the
-- data, of a length that does not wrap around, is refused with -1, and the directory sector then has
-- an entry of its size with the next cluster.
rejected_file_listed :
    (f : File) (d : Disk)
    → IsWithin d
    → IsMeasured f
    → ram_disk_size < data_offset d + f.size
    → let out = add f d in
      (out.0 ≡ negsuc 0)
      × (load_u16 out.1.dir_sector (d.num_dir_entries * 32 + 26) ≡ d.next_free_dynamic_cluster)
      × (load_u32 out.1.dir_sector (d.num_dir_entries * 32 + 28) ≡ f.size)
rejected_file_listed f d w m h = elim (add_cases f d w m) [
  | inl (k, e) ↦ absurd (omega (arith, h, k))
  | inr (k, e) ↦ rw (e) (
    refl,
    copied_cluster d.dir_sector (d.num_dir_entries * 32) f.name f.extension
        d.next_free_dynamic_cluster f.size (omega (arith, w.entries, w.last)),
    copied_size d.dir_sector (d.num_dir_entries * 32) f.name f.extension d.next_free_dynamic_cluster
        f.size (omega (arith, m)),
  )
]

-- If the clusters and entries are counted as they are from the start, and a file of more than a sector
-- fits, then a file of one byte to a sector that is added next has its first byte at the beginning of
-- the second data sector of the longer file.
long_file_overwritten :
    (f g : File) (d : Disk)
    → IsWithin d
    → sector_size < f.size
    → data_offset d + f.size ≤ ram_disk_size
    → 0 < g.size
    → g.size ≤ sector_size
    → sector (add g (add f d).1).1 (filedata_start_sector + (d.next_free_dynamic_cluster - 1)) 0
      ≡ g.contents 0
long_file_overwritten f g d w long fits some_data small =
    let d' = added f d in
    let within : IsWithin d' = record {
      entries = omega (arith, w.entries);
      first = omega arith;
      last = omega (arith, fits, w.entries, w.first);
    } in
    let fits' : data_offset d' + g.size ≤ ram_disk_size =
      omega (arith, long, fits, small, w.entries, w.first) in
    let stored = added-IsStored g d' within fits' small in
    rw (add_fits f d w fits, add_fits g d' within fits')
      (sector_of_data (added g d') (d.next_free_dynamic_cluster - 1) 0
          (omega (arith, long, fits, w.entries, w.first)) (omega arith)
        ∙ ap (added g d').ramdata (omega (arith, w.entries))
        ∙ stored.bytes 0 some_data)
