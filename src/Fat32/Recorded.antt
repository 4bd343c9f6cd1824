-- ===== src/Fat32/Recorded.antt =====
-- The entry that `fat32_write_file` makes: a lookup finds it, and a read goes to the clusters of the file.

use mathlib.Core.Path.{subst}
use sojebos.Common.{
  ℕ, ◌+◌, ◌*◌, ◌%◌, ◌/◌, ◌^◌, ◌≤◌, ◌<◌, ◌≡◌, ◌≢◌, refl, sym, ap, ◌∙◌, ◌⊎◌, inl, inr, arith, false,
  ◌||◌, some, none, List, [], ◌∷◌, map, length, take, get_or, All,
}
use sojebos.Disk.{Disk, disk_read, disk_write}
use sojebos.Fat32.{Volume, next_cluster}
use sojebos.Fat32.Chain.{Chain, Chain-congr, All-map}
use sojebos.Fat32.Entry.{DirEntry, first_cluster, fill_entry}
use sojebos.Fat32.Find.{find_file, is_end, is_deleted}
use sojebos.Fat32.Flat.{dir_slots, run, scan_chain-run}
use sojebos.Fat32.Kept.{
  dir_slots-Keeps, Chain-Keeps, data_sector, next_cluster-disk_write, chain_bytes-disk_write,
}
use sojebos.Fat32.Layout.{IsLaidOut, IsCluster}
use sojebos.Fat32.Listing.{listed, first_named, find_file-listed}
use sojebos.Fat32.Name.{format_filename}
use sojebos.Fat32.Places.{
  Place, slot, dir_places, dir_slots-map, Inside, dir_places-Inside, IsUnused, run-unused,
}
use sojebos.Fat32.Replaced.{recorded-IsDisk, first_named-recorded}
use sojebos.Fat32.Saved.{Keeps, WasFree}
use sojebos.Fat32.Shown.{length-format_filename}
use sojebos.Fat32.Slice.{chain_bytes}
use sojebos.Fat32.Table.{IsDisk}
use sojebos.Fat32.Walk.{Slot, skip, stop}
use sojebos.Fat32.Write.{clusters_needed, visit_unused, record_file}

unused-never_skips : (s s' : Unit {0}) (x : Slot) → visit_unused s x ≡ skip s' → ⊥
unfolding visit_unused
unused-never_skips s s' x e = ground arith

-- Neither the end mark nor deleted
abbrev pub IsTaken : Slot → Type 0
IsTaken x = (is_end x || is_deleted x) ≡ false

-- The file is found in the directory, its size is the one given, and its clusters hold its bytes.
abbrev pub IsFile : Volume → Disk → ℕ → ℕ → List ℕ → List ℕ → ℕ → Type 0
IsFile fs d fuel dir filename bytes size =
    IsDisk d
    × ((e : DirEntry) × (find_file fs d fuel dir filename ≡ some (some e))
        × (e.file_size ≡ size)
        × ((cs : List ℕ) × (length cs ≡ clusters_needed fs size)
            × Chain (next_cluster fs d) (first_cluster e) cs
            × (take size (chain_bytes fs d cs) ≡ bytes)))

first_below : (link : ℕ → ℕ) (c : ℕ) (cs : List ℕ) → Chain link c cs → 1 ≤ length cs → c < 2 ^ 28
first_below link c [] ch le = absurd (omega arith)
first_below link c (k ∷ ks) ch le = ground (arith, ch.1)

All-of_map :
    (d : Disk) (ps : List Place) → All (λ p. IsTaken (slot d p)) ps → All IsTaken (map (slot d) ps)
All-of_map d [] h = tt
All-of_map d (p ∷ ps) h = (h.0, All-of_map d ps h.1)

module _ (fs : Volume) (laid : IsLaidOut fs) (d : Disk) (cs : List ℕ)
    (used : All (λ c. IsCluster fs c × (next_cluster fs d c ≢ 0)) cs) (filename : List ℕ)
    (size : ℕ) where
  abbrev pub written_entry : Disk → Place → ℕ → Disk
  written_entry e p start =
      disk_write e p.sector
        (fill_entry (disk_read e p.sector) p.index (format_filename filename) 0x20 start size)

  -- No entry is free, or the first free one is filled in.
  pub record_file-cases :
      (e : Disk) (fuel start dir : ℕ)
      → Chain (next_cluster fs e) dir cs
      → length cs < fuel
      → ((record_file fs fuel filename size start dir e ≡ some e) × All IsTaken (dir_slots fs e cs))
        ⊎ ((p : Place) × Inside fs (λ c. next_cluster fs d c ≢ 0) p
            × IsUnused (slot e p)
            × (run visit_unused (map (slot e) (dir_places fs cs)) tt ≡ stop (some (slot e p)))
            × (record_file fs fuel filename size start dir e ≡ some (written_entry e p start)))
  unfolding record_file
  record_file-cases e fuel start dir ch le =
      let ps = dir_places fs cs in
      let P = Inside fs (λ c. next_cluster fs d c ≢ 0) in
      let walk = scan_chain-run visit_unused unused-never_skips fs e cs fuel dir tt ch le in
      let walk' = rw (dir_slots-map fs e cs) at walk in
      elim (run-unused e P ps (dir_places-Inside fs laid (λ c. next_cluster fs d c ≢ 0) cs used)) [
        | inl (z, taken) ↦
            inl
              (rw (walk', z, record_file) refl, rw (dir_slots-map fs e cs) (All-of_map e ps taken))
        | inr (p, here, unused, r) ↦ inr (p, here, unused, r, rw (walk', r, record_file) refl)
      ]

module _ (fs : Volume) (laid : IsLaidOut fs) (d e : Disk) (whole : IsDisk d) (whole' : IsDisk e)
    (kept : Keeps fs 0 d e) (cs : List ℕ)
    (used : All (λ c. IsCluster fs c × (next_cluster fs d c ≢ 0)) cs) (filename : List ℕ)
    (not_end : get_or (format_filename filename) 0 0 ≢ 0)
    (not_deleted : get_or (format_filename filename) 0 0 ≢ 0xe5) (fuel dir : ℕ)
    (ch : Chain (next_cluster fs d) dir cs) (le : length cs < fuel)
    (new : first_named (format_filename filename) (listed (dir_slots fs d cs)) ≡ none) where
  module _ (start size : ℕ) (p : Place) (here : Inside fs (λ c. next_cluster fs d c ≢ 0) p)
      (unused : IsUnused (slot e p))
      (found : run visit_unused (map (slot e) (dir_places fs cs)) tt ≡ stop (some (slot e p))) where
    abbrev pub after : Disk
    after = written_entry fs laid d cs used filename size e p start

    pub find_file-recorded :
        find_file fs after fuel dir filename
        ≡ some (
            some (record {
              name = format_filename filename;
              attr = 0x20;
              first_cluster_high = start / 2 ^ 16 % 2 ^ 16;
              first_cluster_low = start % 2 ^ 16;
              file_size = size % 2 ^ 32;
            }))
    find_file-recorded =
        let ps = dir_places fs cs in
        let b =
          fill_entry (disk_read e p.sector) p.index (format_filename filename) 0x20 start size in
        let ch' = Chain-Keeps fs d e whole whole' kept dir cs used ch in
        let ch'' : Chain (next_cluster fs after) dir cs =
          Chain-congr (next_cluster fs e) (next_cluster fs after) dir cs
            (All-map (λ c. IsCluster fs c × (next_cluster fs d c ≢ 0))
              (λ k. next_cluster fs e k ≡ next_cluster fs after k) cs
              (λ k u. sym (next_cluster-disk_write fs laid d e p here b k u.0.1)) used)
            ch' in
        let new' =
          rw (sym (dir_slots-Keeps fs d e whole whole' kept cs used), dir_slots-map fs e cs) at
            new in
        find_file-listed fs after cs fuel dir filename ch'' le
        ∙ rw (dir_slots-map fs after cs) (
            ap some (
              first_named-recorded e whole' p ((data_sector fs laid d e p here b).1, here.0)
                (format_filename filename) 0x20 start size (length-format_filename filename) unused
                not_end not_deleted (omega arith) ps
                (All-map (Inside fs (λ c. next_cluster fs d c ≢ 0))
                  (λ q. (q.sector < 2 ^ 28) × (q.index < 16)) ps
                  (λ q i. ((data_sector fs laid d e q i b).1, i.0))
                  (dir_places-Inside fs laid (λ c. next_cluster fs d c ≢ 0) cs used))
                found new'))

    -- The clusters that hold the file are not touched by the entry.
    pub recorded-IsFile :
        (bytes clusters : List ℕ)
        → Chain (next_cluster fs e) start clusters
        → All (WasFree fs d) clusters
        → length clusters ≡ clusters_needed fs size
        → 1 ≤ length clusters
        → size < 2 ^ 32
        → take size (chain_bytes fs e clusters) ≡ bytes
        → IsFile fs after fuel dir filename bytes size
    recorded-IsFile bytes clusters file free len some_clusters small text =
        let b =
          fill_entry (disk_read e p.sector) p.index (format_filename filename) 0x20 start size in
        let first = first_below (next_cluster fs e) start clusters file some_clusters in
        let at_start : start ≡ start / 2 ^ 16 % 2 ^ 16 * 2 ^ 16 + start % 2 ^ 16 = omega arith in
        (
          recorded-IsDisk e whole' p ((data_sector fs laid d e p here b).1, here.0)
              (format_filename filename) 0x20 start size (length-format_filename filename),
          (
            _,
            find_file-recorded,
            omega arith,
            (
              clusters,
              len,
              subst (λ k. Chain (next_cluster fs after) k clusters) at_start
                  (Chain-congr (next_cluster fs e) (next_cluster fs after) start clusters
                    (All-map (WasFree fs d) (λ k. next_cluster fs e k ≡ next_cluster fs after k)
                      clusters (λ k u. sym (next_cluster-disk_write fs laid d e p here b k u.0.1))
                      free)
                    file),
              ap (take size) (chain_bytes-disk_write fs laid d e p here b clusters free) ∙ text,
            ),
          ),
        )
