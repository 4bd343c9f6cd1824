-- ===== src/Fat32/Linked.antt =====
-- One more cluster of a file in `fat32_write_file`: its links, and its sectors.
use mathlib.Core.Path.{subst}
use sojebos.Common.{
  ℕ, zero, suc, ◌+◌, ◌-◌, ◌*◌, ◌%◌, ◌^◌, ◌≤◌, ◌<◌, ◌≡◌, ◌≢◌, refl, ap, ◌∙◌, ◌⊎◌, inl, inr, arith,
  List, u32, Bool-cases, length, take, drop, ◌==◌,
}
use sojebos.Disk.{Disk, disk_read}
use sojebos.Fat32.{Volume, next_cluster, set_next_cluster, cluster_to_sector, end_of_chain}
use sojebos.Fat32.Layout.{
  IsLaidOut, IsCluster, clusters_of, few_clusters, cluster_to_sector-inside,
  cluster_to_sector-apart, disk_read-set_next_cluster, next_cluster-same_table,
}
use sojebos.Fat32.Sectors.{
  write_sectors-outside, write_sectors-IsDisk, write_sectors-sector_data, sectors_bytes-drop,
}
use sojebos.Fat32.Slice.{sectors_bytes, cluster_bytes, per_cluster}
use sojebos.Fat32.Table.{IsDisk, next-set_next_cluster, set_next_cluster-IsDisk}
use sojebos.Fat32.Write.{sector_data, write_sectors, link_cluster, write_cluster}

-- Sectors with the same bytes
sectors_bytes-same :
    (d e : Disk) (base n s : ℕ)
    → base + s + n ≤ 2 ^ 28
    → ((j : ℕ) → s ≤ j → j < s + n → disk_read e (base + j) ≡ disk_read d (base + j))
    → sectors_bytes e base n s ≡ sectors_bytes d base n s
sectors_bytes-same d e base zero s fits same = refl
sectors_bytes-same d e base (suc n) s fits same =
    let address : u32 (base + s) ≡ base + s = omega arith in
    let rest =
      sectors_bytes-same d e base n (s + 1) (omega arith)
        (λ j p q. same j (omega arith) (omega arith)) in
    rw (address, same s (omega arith) (omega arith), rest) refl

module _ (fs : Volume) (laid : IsLaidOut fs) where
  pub cluster_bytes-same :
      (d e : Disk) (k : ℕ)
      → IsCluster fs k
      → ((q : ℕ)
          → cluster_to_sector fs k ≤ q
          → q < cluster_to_sector fs k + fs.sectors_per_cluster
          → disk_read e q ≡ disk_read d q)
      → cluster_bytes fs e k ≡ cluster_bytes fs d k
  cluster_bytes-same d e k ok same =
      let inside = cluster_to_sector-inside fs laid k ok.0 ok.1 in
      sectors_bytes-same d e (cluster_to_sector fs k) fs.sectors_per_cluster 0
        (omega (arith, inside))
        (λ j p q. same (cluster_to_sector fs k + j) (omega arith) (omega arith))

  module _ (i prev c : ℕ) (d : Disk) (whole : IsDisk d) (ok : IsCluster fs c)
      (before : prev < clusters_of fs) (other : i ≢ 0 → prev ≢ c) where
    abbrev Links : Disk → Type 0
    Links e =
        IsDisk e
        × (next_cluster fs e c ≡ end_of_chain)
        × (i ≢ 0 → next_cluster fs e prev ≡ c)
        × ((k : ℕ)
            → k < clusters_of fs
            → k ≢ c
            → (i ≢ 0 → k ≢ prev)
            → next_cluster fs e k ≡ next_cluster fs d k)

    link_cluster-Links : Links (link_cluster fs i prev c d)
    unfolding link_cluster
    link_cluster-Links =
        let few = few_clusters fs laid in
        elim (Bool-cases (i == 0)) [
          | inl e ↦
              let w =
                next-set_next_cluster fs d whole laid.reserved c end_of_chain
                  (omega (arith, few)) in
              rw e (
                set_next_cluster-IsDisk fs c end_of_chain d whole,
                w.0,
                (λ ne. absurd (ground arith)),
                (λ k lt ne p. w.2 k (omega (arith, few)) ne),
              )
          | inr e ↦
              let nz : i ≢ 0 = ground arith in
              let w0 = next-set_next_cluster fs d whole laid.reserved prev c (omega (arith, few)) in
              let d0 = set_next_cluster fs prev c d in
              let whole0 = set_next_cluster-IsDisk fs prev c d whole in
              let w =
                next-set_next_cluster fs d0 whole0 laid.reserved c end_of_chain
                  (omega (arith, few)) in
              let low : c % 2 ^ 28 ≡ c = omega (arith, few) in
              rw e (
                set_next_cluster-IsDisk fs c end_of_chain d0 whole0,
                w.0,
                (λ ne. w.2 prev (omega (arith, few)) (other nz) ∙ w0.0 ∙ low),
                (λ k lt ne p. w.2 k (omega (arith, few)) ne ∙ w0.2 k (omega (arith, few)) (p nz)),
              )
        ]

    link_cluster-data :
        (q : ℕ)
        → fs.first_data_sector ≤ q
        → q < 2 ^ 28
        → disk_read (link_cluster fs i prev c d) q ≡ disk_read d q
    unfolding link_cluster
    link_cluster-data q from small =
        disk_read-set_next_cluster fs laid c end_of_chain q _ ok.1 from small
        ∙ elim (Bool-cases (i == 0)) [
          | inl e ↦ rw e refl
          | inr e ↦ rw e (disk_read-set_next_cluster fs laid prev c q d before from small)
        ]

module _ (fs : Volume) (bytes : List ℕ) (size i prev c : ℕ) (d : Disk) where
  -- The disk with one more cluster: its links, its part of the file, and all else as before.
  abbrev pub Extended : Disk → Type 0
  Extended e =
      IsDisk e
      × (next_cluster fs e c ≡ end_of_chain)
      × (i ≢ 0 → next_cluster fs e prev ≡ c)
      × ((k : ℕ)
          → k < clusters_of fs
          → k ≢ c
          → (i ≢ 0 → k ≢ prev)
          → next_cluster fs e k ≡ next_cluster fs d k)
      × ((k : ℕ) → IsCluster fs k → k ≢ c → cluster_bytes fs e k ≡ cluster_bytes fs d k)
      × (take (size - i * per_cluster fs) (cluster_bytes fs e c)
          ≡ take (per_cluster fs) (drop (i * per_cluster fs) bytes))

module _ (fs : Volume) (laid : IsLaidOut fs) (bytes : List ℕ) (size : ℕ) (all : length bytes ≡ size)
    (i prev c : ℕ) (d : Disk) (whole : IsDisk d) (ok : IsCluster fs c)
    (before : prev < clusters_of fs) (other : i ≢ 0 → prev ≢ c)
    (fits : i * per_cluster fs + per_cluster fs ≤ 2 ^ 32) where
  pub write_cluster-Extended :
      Extended fs bytes size i prev c d (write_cluster fs bytes size i prev c d)
  unfolding write_cluster
  write_cluster-Extended =
      let n = fs.sectors_per_cluster in
      let base = cluster_to_sector fs c in
      let first = u32 (i * per_cluster fs) in
      let e : first ≡ i * per_cluster fs = omega (arith, laid.some_sectors) in
      let (whole', last, joined, same) =
        link_cluster-Links fs laid i prev c d whole ok before other in
      let linked = link_cluster fs i prev c d in
      let after = write_sectors bytes size first base n 0 linked in
      let inside = cluster_to_sector-inside fs laid c ok.0 ok.1 in
      let outside = λ (q : ℕ) (small : q < 2 ^ 28) (out : (q < base + 0) ⊎ (base + 0 + n ≤ q)).
        write_sectors-outside bytes size all first base n 0 q linked (omega (arith, inside)) small
          out in
      let table = λ (k : ℕ) (lt : k < clusters_of fs).
        next_cluster-same_table fs laid k linked after lt
          (λ q p. outside q (omega (arith, inside)) (inl (omega (arith, inside)))) in
      let written =
        λ (j : ℕ) (p : 0 ≤ j) (q : j < 0 + n) (lt : i * per_cluster fs + j * 512 < size).
          let address : u32 (base + j) ≡ base + j = omega (arith, inside) in
          let offset : u32 (first + j * 512) ≡ i * per_cluster fs + j * 512 = omega (arith, e) in
          ap (disk_read after) address
          ∙ write_sectors-sector_data bytes size all first base n 0 j linked (omega (arith, inside))
              p q (omega (arith, offset))
          ∙ ap (sector_data bytes size) offset in
      let start : i * per_cluster fs + 0 * 512 ≡ i * per_cluster fs = omega arith in
      (
        write_sectors-IsDisk bytes size all first base n 0 linked whole',
        table c ok.1 ∙ last,
        (λ nz. table prev before ∙ joined nz),
        (λ k lt ne p. table k lt ∙ same k lt ne p),
        (λ k here ne.
            let there = cluster_to_sector-inside fs laid k here.0 here.1 in
            let apart = cluster_to_sector-apart fs laid k c here.0 here.1 ok.0 ok.1 ne in
            cluster_bytes-same fs laid d after k here (λ q p r.
              outside q (omega (arith, there)) (omega (arith, apart))
              ∙ link_cluster-data fs laid i prev c d whole ok before other q (omega (arith, there))
                  (omega (arith, there)))),
        subst
            (λ o. take (size - o) (cluster_bytes fs after c) ≡ take (per_cluster fs) (drop o bytes))
            start (sectors_bytes-drop bytes size all n 0 (i * per_cluster fs) base after written),
      )
