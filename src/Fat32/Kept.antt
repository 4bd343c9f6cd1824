-- ===== src/Fat32/Kept.antt =====
-- The parts of the disk that the two halves of `fat32_write_file` leave to each other.
use sojebos.Common.{
  ℕ, zero, suc, ◌+◌, ◌^◌, ◌≤◌, ◌<◌, ◌≡◌, ◌≢◌, refl, sym, ap, ◌∙◌, arith, List, [], ◌∷◌, ◌++◌,
  length, take, drop, u32, take-length, drop-length, All,
}
use sojebos.Disk.{Disk, disk_read, disk_write}
use sojebos.Fat32.{Volume, cluster_to_sector, next_cluster}
use sojebos.Fat32.Chain.{Chain, Chain-congr, All-map}
use sojebos.Fat32.Flat.{dir_slots, sectors_slots, slots_of_sector}
use sojebos.Fat32.Layout.{
  IsLaidOut, IsCluster, clusters_of, cluster_to_sector-inside, cluster_to_sector-apart,
  disk_read-write_ne, next_cluster-same_table,
}
use sojebos.Fat32.Linked.{cluster_bytes-same}
use sojebos.Fat32.Places.{Place, Inside}
use sojebos.Fat32.Saved.{Keeps, WasFree}
use sojebos.Fat32.Slice.{sectors_bytes, chain_bytes}
use sojebos.Fat32.Table.{IsDisk}

append_parts :
    (xs us ys vs : List ℕ) → length xs ≡ length us → xs ++ ys ≡ us ++ vs → (xs ≡ us) × (ys ≡ vs)
append_parts xs us ys vs len e = (
  sym (take-length xs ys)
      ∙ ap (take (length xs)) e
      ∙ ap (λ k. take k (us ++ vs)) len
      ∙ take-length us vs,
  sym (drop-length xs ys)
      ∙ ap (drop (length xs)) e
      ∙ ap (λ k. drop k (us ++ vs)) len
      ∙ drop-length us vs,
)

-- Sectors with the same bytes have the same entries.
sectors_slots-same :
    (d e : Disk) (base n k : ℕ)
    → IsDisk d
    → IsDisk e
    → sectors_bytes e base n k ≡ sectors_bytes d base n k
    → sectors_slots e base n k ≡ sectors_slots d base n k
unfolding sectors_slots slots_of_sector
sectors_slots-same d e base zero k whole whole' same = refl
sectors_slots-same d e base (suc n) k whole whole' same =
    let (first, rest) =
      append_parts (disk_read e (u32 (base + k))) (disk_read d (u32 (base + k)))
        (sectors_bytes e base n (k + 1)) (sectors_bytes d base n (k + 1))
        (whole' (u32 (base + k)) ∙ sym (whole (u32 (base + k)))) same in
    rw (first, sectors_slots-same d e base n (k + 1) whole whole' rest) refl

-- A directory whose clusters are in use is kept.
module _ (fs : Volume) (d e : Disk) (whole : IsDisk d) (whole' : IsDisk e)
    (kept : Keeps fs 0 d e) where
  abbrev pub InUse : ℕ → Type 0
  InUse c = IsCluster fs c × (next_cluster fs d c ≢ 0)

  pub dir_slots-Keeps : (cs : List ℕ) → All InUse cs → dir_slots fs e cs ≡ dir_slots fs d cs
  unfolding dir_slots
  dir_slots-Keeps [] used = refl
  dir_slots-Keeps (c ∷ cs) ((ok, used), rest) =
      rw
        (
          sectors_slots-same d e (cluster_to_sector fs c) fs.sectors_per_cluster 0 whole whole'
              (kept c ok used).0,
          dir_slots-Keeps cs rest,
        )
        refl

  pub Chain-Keeps :
      (c : ℕ) (cs : List ℕ)
      → All InUse cs
      → Chain (next_cluster fs d) c cs
      → Chain (next_cluster fs e) c cs
  Chain-Keeps c cs used = Chain-congr (next_cluster fs d) (next_cluster fs e) c cs (
      All-map InUse (λ k. next_cluster fs d k ≡ next_cluster fs e k) cs
        (λ k u. sym ((kept k u.0 u.1).1 (omega (arith, u.0)))) used)

-- The sector of a directory of clusters in use, written: the table and the free clusters stay.
module _ (fs : Volume) (laid : IsLaidOut fs) (d e : Disk) (p : Place)
    (inside : Inside fs (λ c. next_cluster fs d c ≢ 0) p) (b : List ℕ) where
  pub data_sector : (fs.first_data_sector ≤ p.sector) × (p.sector < 2 ^ 28)
  data_sector =
      let (few, (c, ok, used, from, to)) = inside in
      omega (arith, cluster_to_sector-inside fs laid c ok.0 ok.1, from, to)

  pub next_cluster-disk_write :
      (k : ℕ)
      → k < clusters_of fs
      → next_cluster fs (disk_write e p.sector b) k ≡ next_cluster fs e k
  next_cluster-disk_write k lt =
      let (from, small) = data_sector in
      next_cluster-same_table fs laid k e (disk_write e p.sector b) lt
        (λ q before. disk_read-write_ne e p.sector q b small (omega arith) (omega arith))

  pub chain_bytes-disk_write :
      (cs : List ℕ)
      → All (WasFree fs d) cs
      → chain_bytes fs (disk_write e p.sector b) cs ≡ chain_bytes fs e cs
  chain_bytes-disk_write [] free = refl
  chain_bytes-disk_write (k ∷ ks) ((ok', z), free) =
      let (few, (c, ok, used, from, to)) = inside in
      let other : c ≢ k = λ q. used (ap (next_cluster fs d) q ∙ z) in
      let apart = cluster_to_sector-apart fs laid c k ok.0 ok.1 ok'.0 ok'.1 other in
      let mine = cluster_to_sector-inside fs laid k ok'.0 ok'.1 in
      rw
        (
          cluster_bytes-same fs laid e (disk_write e p.sector b) k ok' (λ q le lt.
              disk_read-write_ne e p.sector q b data_sector.1 (omega (arith, mine, lt))
                (omega (arith, apart, from, to, le, lt))),
          chain_bytes-disk_write ks free,
        )
        refl
