-- ===== src/Fat32/Write.antt =====
-- `fat32_write_file`: clusters taken and filled one by one, then an entry in the directory.
use sojebos.Common.{
  ℕ, zero, suc, ◌+◌, ◌-◌, ◌*◌, ◌/◌, ◌||◌, Option, none, some, List, ◌++◌, ◌==◌, if◌then◌else◌, leb,
  ltb, u32, sub32, take, drop, replicate,
}
use sojebos.Disk.{Disk, disk_write}
use sojebos.Fat32.{
  Volume, State, cluster_to_sector, set_next_cluster, find_free_cluster, end_of_chain,
}
use sojebos.Fat32.Entry.{fill_entry}
use sojebos.Fat32.Find.{is_end, is_deleted, found_or_none}
use sojebos.Fat32.Name.{format_filename}
use sojebos.Fat32.Walk.{Slot, Step, go, stop, scan_chain}

-- What goes into the sector at `offset`: 512 bytes of the file, or its last bytes and zeros.
unfoldable pub sector_data : List ℕ → ℕ → ℕ → List ℕ
sector_data bytes size offset =
    if leb 512 (size - offset)
    then take 512 (drop offset bytes)
    else take (size - offset) (drop offset bytes) ++ replicate (512 - (size - offset)) 0

-- The loop over the sectors of the file's cluster `i`.
unfoldable pub write_sectors : List ℕ → ℕ → ℕ → ℕ → ℕ → ℕ → Disk → Disk
write_sectors bytes size first_offset start zero s d = d
write_sectors bytes size first_offset start (suc n) s d =
    let offset = u32 (first_offset + s * 512) in
    write_sectors bytes size first_offset start n (s + 1) (
      if ltb offset size then disk_write d (u32 (start + s)) (sector_data bytes size offset) else d)

-- `full`: the early return; what was linked before stays linked.
pub data Allocation : Type 0 where
  full : Disk → Allocation
  linked : ℕ → Disk → Allocation

-- The links of one more cluster: from the one before it, and its own end mark.
unfoldable pub link_cluster : Volume → ℕ → ℕ → ℕ → Disk → Disk
link_cluster fs i prev current d =
    set_next_cluster fs current end_of_chain
      (if i == 0 then d else set_next_cluster fs prev current d)

unfoldable pub write_cluster : Volume → List ℕ → ℕ → ℕ → ℕ → ℕ → Disk → Disk
write_cluster fs bytes size i prev current d =
    write_sectors bytes size (u32 (i * (fs.sectors_per_cluster * 512)))
      (cluster_to_sector fs current) fs.sectors_per_cluster 0 (link_cluster fs i prev current d)

-- `n` more clusters from the file's cluster `i`.
unfoldable pub write_clusters : Volume → List ℕ → ℕ → ℕ → ℕ → ℕ → ℕ → Disk → Allocation
write_clusters fs bytes size zero i prev first d = linked first d
write_clusters fs bytes size (suc n) i prev first d =
    let current = find_free_cluster fs d in
    let rest =
      write_clusters fs bytes size n (i + 1) current (if i == 0 then current else first)
        (write_cluster fs bytes size i prev current d) in
    if current == end_of_chain then full d else rest

-- An entry that is empty or deleted is taken.
unfoldable pub visit_unused : Unit {0} → Slot → Step (Unit {0}) (Option Slot)
visit_unused s x = if is_end x || is_deleted x then stop (some x) else go s

unfoldable pub record_file : Volume → ℕ → List ℕ → ℕ → ℕ → ℕ → Disk → Option Disk
record_file fs fuel filename size first dir d = elim (scan_chain visit_unused fs d fuel dir tt) [
  | none ↦ none
  | some r ↦ elim (found_or_none r) [
    | none ↦ some d
    | some x ↦ some (
        disk_write d x.sector
          (fill_entry x.buffer x.index (format_filename filename) 0x20 first size))
  ]
]

abbrev pub clusters_needed : Volume → ℕ → ℕ
clusters_needed fs size =
    let bytes_per_cluster = fs.sectors_per_cluster * 512 in
    sub32 (u32 (size + bytes_per_cluster)) 1 / bytes_per_cluster

-- `none`: out of fuel in the walk over the directory.
unfoldable pub fat32_write_file : ℕ → List ℕ → List ℕ → ℕ → State → Option State
fat32_write_file fuel filename bytes size st =
    elim (write_clusters st.fs bytes size (clusters_needed st.fs size) 0 0 0 st.disk) [
      | full d ↦ some (record st { disk = d })
      | linked first d ↦
          elim (record_file st.fs fuel filename size first st.current_dir_cluster d) [
            | none ↦ none
            | some e ↦ some (record st { disk = e })
          ]
    ]
