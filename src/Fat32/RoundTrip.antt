-- ===== src/Fat32/RoundTrip.antt =====
-- What `fat32_write_file` puts into clusters is what reading those clusters gives back.
use mathlib.Core.Path.{subst}
use native.Mathlib.Nat.{div-mul-le_self, lt-div-mul-add}
use sojebos.Common.{
  ℕ, zero, suc, ◌+◌, ◌-◌, ◌*◌, ◌/◌, ◌^◌, ◌≤◌, ◌<◌, ◌≡◌, refl, sym, ap, ◌∙◌, arith, List, length,
  take, drop, take-all, sub32, u32, All, some,
}
use sojebos.Disk.{Disk}
use sojebos.Fat32.{Volume, next_cluster}
use sojebos.Fat32.Chain.{Chain}
use sojebos.Fat32.Contents.{fat32_vfs_read-slice}
use sojebos.Fat32.Layout.{IsLaidOut}
use sojebos.Fat32.Read.{fat32_vfs_read}
use sojebos.Fat32.Saved.{Keeps, NoFree, WasFree, Saved, write_clusters-Saved}
use sojebos.Fat32.Slice.{per_cluster, chain_bytes}
use sojebos.Fat32.Table.{IsDisk}
use sojebos.Fat32.Write.{Allocation, full, linked, clusters_needed, write_clusters}

positive_factor : (n p size : ℕ) → 1 ≤ size → size ≤ n * p → 1 ≤ n
positive_factor zero p size ge le = absurd (omega arith)
positive_factor (suc n) p size ge le = omega arith

-- As many clusters as hold the file, and no more.
pub clusters_needed_lem :
    (fs : Volume) (size : ℕ)
    → 1 ≤ fs.sectors_per_cluster
    → 1 ≤ size
    → size + per_cluster fs ≤ 2 ^ 32
    → (1 ≤ clusters_needed fs size)
      × (size ≤ clusters_needed fs size * per_cluster fs)
      × (clusters_needed fs size * per_cluster fs ≤ 2 ^ 32)
clusters_needed_lem fs size some_sectors ge fits =
    let per = per_cluster fs in
    let sum : sub32 (u32 (size + per)) 1 ≡ size + per - 1 = omega arith in
    let pos : 0 < per = omega arith in
    let below = div-mul-le_self (size + per - 1) per in
    let above = lt-div-mul-add {a = size + per - 1} {b = per} pos in
    let n = (size + per - 1) / per in
    rw sum (
      positive_factor n per size ge (omega (arith, above)),
      omega (arith, above),
      omega (arith, below),
    )

module _ (fs : Volume) (bytes : List ℕ) (size : ℕ) (d : Disk) where
  abbrev pub Stored : Allocation → Type 0
  Stored (full e) = IsDisk e × Keeps fs 0 d e × NoFree fs e
  Stored (linked start e) =
      IsDisk e
      × Keeps fs 0 d e
      × ((cs : List ℕ) × Chain (next_cluster fs e) start cs
          × All (WasFree fs d) cs
          × (length cs ≡ clusters_needed fs size)
          × (take size (chain_bytes fs e cs) ≡ bytes))

  Saved-Stored :
      (a : Allocation)
      → 1 ≤ clusters_needed fs size
      → length bytes ≤ clusters_needed fs size * per_cluster fs
      → Saved fs bytes size (clusters_needed fs size) 0 0 0 d a
      → Stored a
  Saved-Stored (full e) one enough saved = saved
  Saved-Stored (linked start e) one enough (whole, kept, (cs, len, free, follows, chain, text)) =
      let n = clusters_needed fs size in
      let from : 0 * per_cluster fs ≡ 0 = omega arith in
      let left : size - 0 ≡ size = omega arith in
      let shown =
        subst
          (λ o. take (size - o) (chain_bytes fs e cs) ≡ take (n * per_cluster fs) (drop o bytes))
          from text in
      (
        whole,
        kept,
        (
          cs,
          chain refl one,
          free,
          len,
          ap (λ k. take k (chain_bytes fs e cs)) (sym left)
              ∙ shown
              ∙ take-all (n * per_cluster fs) bytes enough,
        ),
      )

-- The clusters that `fat32_write_file` takes were free, form a chain, and hold the file, in order; the
-- clusters in use keep their links and their bytes. If there are too few, the disk is full afterwards.
-- This holds on a volume whose table stands in front of its data and whose sectors have 28-bit
-- addresses, for a file that is not empty and with its last cluster stays within 2 ^ 32 bytes.
pub write_clusters-Stored :
    (fs : Volume) (bytes : List ℕ) (size : ℕ) (d : Disk)
    → IsLaidOut fs
    → IsDisk d
    → 1 ≤ fs.fat_size
    → length bytes ≡ size
    → 1 ≤ size
    → size + per_cluster fs ≤ 2 ^ 32
    → Stored fs bytes size d (write_clusters fs bytes size (clusters_needed fs size) 0 0 0 d)
write_clusters-Stored fs bytes size d laid whole table all ge fits =
    let n = clusters_needed fs size in
    let (one, enough, few) = clusters_needed_lem fs size laid.some_sectors ge fits in
    Saved-Stored fs bytes size d (write_clusters fs bytes size n 0 0 0 d) one
      (omega (arith, enough))
      (write_clusters-Saved fs laid bytes size all n 0 0 0 d whole (omega arith) (λ z. refl)
        (λ nz. absurd (nz refl)) (omega (arith, few)))

-- Reading what was written: when `fat32_write_file` found clusters, then at every offset and for every
-- count below 2 ^ 32 in sum, with fuel for the file's clusters, the slice of the file comes back. The
-- volume is laid out, and the file has a size, as for `write_clusters-Stored`.
pub fat32_vfs_read-write_clusters :
    (fs : Volume) (bytes : List ℕ) (size start fuel offset count : ℕ) (d e : Disk)
    → IsLaidOut fs
    → IsDisk d
    → 1 ≤ fs.fat_size
    → length bytes ≡ size
    → 1 ≤ size
    → size + per_cluster fs ≤ 2 ^ 32
    → write_clusters fs bytes size (clusters_needed fs size) 0 0 0 d ≡ linked start e
    → clusters_needed fs size < fuel
    → offset + count < 2 ^ 32
    → fat32_vfs_read fs e fuel start size offset count ≡ some (take count (drop offset bytes))
fat32_vfs_read-write_clusters fs bytes size start fuel offset count d e laid whole table all ge fits
      written more small =
    let (whole', kept, (cs, chain, free, len, text)) =
      subst (Stored fs bytes size d) written
        (write_clusters-Stored fs bytes size d laid whole table all ge fits) in
    let (one, enough, few) = clusters_needed_lem fs size laid.some_sectors ge fits in
    fat32_vfs_read-slice fs e whole' laid.some_sectors laid.small cs fuel start size offset count
      (omega (arith, len)) chain (omega (arith, len, one)) small
    ∙ ap some (ap (take count) (ap (drop offset) text))
