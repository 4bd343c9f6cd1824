-- ===== src/Fat32/WriteFile.antt =====
-- `fat32_write_file` as a whole: the file is found under its name, and read back.

use sojebos.Common.{
  ℕ, ◌+◌, ◌^◌, ◌≤◌, ◌<◌, ◌≡◌, ◌≢◌, refl, ap, ◌∙◌, ◌⊎◌, inl, inr, arith, some, none, List, length,
  take, drop, get_or, All,
}
use sojebos.Disk.{Disk}
use sojebos.Fat32.{Volume, State, next_cluster}
use sojebos.Fat32.Chain.{Chain}
use sojebos.Fat32.Contents.{fat32_vfs_read-slice}
use sojebos.Fat32.Entry.{DirEntry, first_cluster}
use sojebos.Fat32.Find.{find_file}
use sojebos.Fat32.Flat.{dir_slots, run}
use sojebos.Fat32.Kept.{Chain-Keeps}
use sojebos.Fat32.Layout.{IsLaidOut, IsCluster}
use sojebos.Fat32.Listing.{listed, first_named}
use sojebos.Fat32.Name.{format_filename}
use sojebos.Fat32.Read.{fat32_vfs_read}
use sojebos.Fat32.Recorded.{IsTaken, record_file-cases, recorded-IsFile, IsFile, written_entry}
use sojebos.Fat32.RoundTrip.{Stored, write_clusters-Stored, clusters_needed_lem}
use sojebos.Fat32.Saved.{NoFree}
use sojebos.Fat32.Slice.{per_cluster, chain_bytes}
use sojebos.Fat32.Table.{IsDisk}
use sojebos.Fat32.Write.{
  Allocation, full, linked, clusters_needed, write_clusters, fat32_write_file,
}

-- What a call can end in: the disk is full, the directory has no entry left, or the file is there.
abbrev pub Ending : State → List ℕ → (Disk → Type 0) → Disk → Type 0
Ending st cs P after = NoFree st.fs after ⊎ (All IsTaken (dir_slots st.fs after cs) ⊎ P after)

pub Ending-map :
    (st : State) (cs : List ℕ) (P Q : Disk → Type 0) (after : Disk)
    → (P after → Q after)
    → Ending st cs P after
    → Ending st cs Q after
Ending-map st cs P Q after f (inl h) = inl h
Ending-map st cs P Q after f (inr (inl h)) = inr (inl h)
Ending-map st cs P Q after f (inr (inr h)) = inr (inr (f h))

module _ (st : State) (cs : List ℕ) (fuel : ℕ) (filename bytes : List ℕ) (size : ℕ)
    (laid : IsLaidOut st.fs) (whole : IsDisk st.disk) (table : 1 ≤ st.fs.fat_size)
    (used : All (λ c. IsCluster st.fs c × (next_cluster st.fs st.disk c ≢ 0)) cs)
    (ch : Chain (next_cluster st.fs st.disk) st.current_dir_cluster cs) (le : length cs < fuel)
    (all : length bytes ≡ size) (ge : 1 ≤ size) (room : size + per_cluster st.fs ≤ 2 ^ 32)
    (not_end : get_or (format_filename filename) 0 0 ≢ 0)
    (not_deleted : get_or (format_filename filename) 0 0 ≢ 0xe5)
    (new : first_named (format_filename filename) (listed (dir_slots st.fs st.disk cs))
      ≡ none) where
  abbrev File : Disk → Type 0
  File after = IsFile st.fs after fuel st.current_dir_cluster filename bytes size

  Allocation-File :
      (a : Allocation)
      → write_clusters st.fs bytes size (clusters_needed st.fs size) 0 0 0 st.disk ≡ a
      → Stored st.fs bytes size st.disk a
      → (after : Disk) × (fat32_write_file fuel filename bytes size st
          ≡ some (record st { disk = after }))
        × Ending st cs File after
  unfolding fat32_write_file
  Allocation-File (full e) run (whole', kept, no_free) =
      (e, rw (run, fat32_write_file) refl, inl no_free)
  Allocation-File (linked start e) run (whole', kept, (clusters, file, free, len, text)) =
      let dir = st.current_dir_cluster in
      let one = (clusters_needed_lem st.fs size laid.some_sectors ge room).0 in
      let ch' = Chain-Keeps st.fs st.disk e whole whole' kept dir cs used ch in
      elim (record_file-cases st.fs laid st.disk cs used filename size e fuel start dir ch' le) [
        | inl (r, taken) ↦ (e, rw (run, r, fat32_write_file) refl, inr (inl taken))
        | inr (p, here, unused, found, r) ↦ (
          written_entry st.fs laid st.disk cs used filename size e p start,
          rw (run, r, fat32_write_file) refl,
          inr (
              inr (
                recorded-IsFile st.fs laid st.disk e whole whole' kept cs used filename not_end
                  not_deleted fuel dir ch le new start size p here unused found bytes clusters file
                  free len (omega (arith, len, one)) (omega (arith, room, laid.some_sectors))
                  text)),
        )
      ]

  pub fat32_write_file-File :
      (after : Disk) × (fat32_write_file fuel filename bytes size st
        ≡ some (record st { disk = after }))
      × Ending st cs File after
  fat32_write_file-File =
      Allocation-File _ refl
        (write_clusters-Stored st.fs bytes size st.disk laid whole table all ge room)

-- The file is found in the directory, and a read from what was found gives its bytes.
abbrev pub IsReadBack : Volume → ℕ → ℕ → List ℕ → List ℕ → ℕ → ℕ → ℕ → Disk → Type 0
IsReadBack fs fuel dir filename bytes more offset count d =
    (e : DirEntry) × (find_file fs d fuel dir filename ≡ some (some e))
    × (fat32_vfs_read fs d more (first_cluster e) e.file_size offset count
        ≡ some (take count (drop offset bytes)))

IsFile-IsReadBack :
    (fs : Volume) (d : Disk) (fuel dir : ℕ) (filename bytes : List ℕ) (size more offset count : ℕ)
    → IsLaidOut fs
    → 1 ≤ clusters_needed fs size
    → clusters_needed fs size < more
    → offset + count < 2 ^ 32
    → IsFile fs d fuel dir filename bytes size
    → IsReadBack fs fuel dir filename bytes more offset count d
IsFile-IsReadBack fs d fuel dir filename bytes size more offset count laid one enough fits
      (whole, (e, found, exact, (cs, len, chain, text))) =
    (
      e,
      found,
      fat32_vfs_read-slice fs d whole laid.some_sectors laid.small cs more (first_cluster e)
            e.file_size offset count (omega (arith, len)) chain (omega (arith, len)) fits
          ∙ ap (λ n. some (take count (drop offset (take n (chain_bytes fs d cs))))) exact
          ∙ ap (λ l. some (take count (drop offset l))) text,
    )

-- `fat32_write_file` returns, and ends in one of three ways: no cluster of the disk is free; the
-- directory has no entry that is empty or deleted; or the file is found under its name, and a read
-- from what was found gives the slice of its bytes. This holds on a volume that is laid out, in a
-- directory of clusters in use that lists no such name, with fuel for the directory's clusters and
-- for the file's, for a file that is not empty and with its last cluster stays within 2 ^ 32 bytes,
-- and a name whose first formatted byte is not a mark.
pub fat32_write_file-Written :
    (st : State) (cs : List ℕ) (fuel : ℕ) (filename bytes : List ℕ) (size more offset count : ℕ)
    → IsLaidOut st.fs
    → IsDisk st.disk
    → 1 ≤ st.fs.fat_size
    → All (λ c. IsCluster st.fs c × (next_cluster st.fs st.disk c ≢ 0)) cs
    → Chain (next_cluster st.fs st.disk) st.current_dir_cluster cs
    → length cs < fuel
    → length bytes ≡ size
    → 1 ≤ size
    → size + per_cluster st.fs ≤ 2 ^ 32
    → get_or (format_filename filename) 0 0 ≢ 0
    → get_or (format_filename filename) 0 0 ≢ 0xe5
    → first_named (format_filename filename) (listed (dir_slots st.fs st.disk cs)) ≡ none
    → clusters_needed st.fs size < more
    → offset + count < 2 ^ 32
    → (after : Disk) × (fat32_write_file fuel filename bytes size st
        ≡ some (record st { disk = after }))
      × Ending st cs
          (IsReadBack st.fs fuel st.current_dir_cluster filename bytes more offset count)
          after
fat32_write_file-Written st cs fuel filename bytes size more offset count laid whole table used ch
      le all ge room not_end not_deleted new enough fits =
    let (after, run, ends) =
      fat32_write_file-File st cs fuel filename bytes size laid whole table used ch le all ge room
        not_end not_deleted new in
    (
      after,
      run,
      Ending-map st cs (λ d. IsFile st.fs d fuel st.current_dir_cluster filename bytes size)
          (IsReadBack st.fs fuel st.current_dir_cluster filename bytes more offset count) after
          (IsFile-IsReadBack st.fs after fuel st.current_dir_cluster filename bytes size more offset
            count laid (clusters_needed_lem st.fs size laid.some_sectors ge room).0 enough fits)
          ends,
    )
