-- ===== src/Fat32/Layout.antt =====
-- Where the parts of a volume stand on the disk: the table in front of the data, and each cluster's
-- sectors apart from every other's.
use sojebos.Common.{
  ℕ, suc, ◌+◌, ◌-◌, ◌*◌, ◌%◌, ◌^◌, ◌≤◌, ◌<◌, ◌≡◌, ◌≢◌, refl, ◌⊎◌, inl, inr, arith, List, sub32,
  true, false, ltb, Bool-cases, ◌==◌,
}
use sojebos.Disk.{Disk, disk_read, disk_write}
use sojebos.Disk.Fields.{disk_read-write}
use sojebos.Fat32.{Volume, cluster_to_sector, fat_sector, next_cluster, set_next_cluster}

-- A volume that fits on the disk, with one table in front of its data at least. Its sectors have
-- addresses of 28 bits.
pub record IsLaidOut (fs : Volume) : Type 0 where
  pub reserved : fs.reserved_sector_count < 2 ^ 16
  pub table : fs.fat_size ≤ 2 ^ 21
  pub behind : fs.reserved_sector_count + fs.fat_size ≤ fs.first_data_sector
  pub fits : fs.first_data_sector + fs.fat_size * 128 * fs.sectors_per_cluster ≤ 2 ^ 28
  pub some_sectors : 1 ≤ fs.sectors_per_cluster
  pub small : fs.sectors_per_cluster < 256

abbrev pub clusters_of : Volume → ℕ
clusters_of fs = fs.fat_size * 128

-- A cluster of the data area
abbrev pub IsCluster : Volume → ℕ → Type 0
IsCluster fs k = (2 ≤ k) × (k < clusters_of fs)

pub scaled_le : (a b k : ℕ) → a ≤ b → a * k ≤ b * k
scaled_le a b k h = grind arith

pub scaled_suc : (a k : ℕ) → suc a * k ≡ a * k + k
scaled_suc a k = grind arith

pub disk_read-write_ne :
    (d : Disk) (s t : ℕ) (b : List ℕ)
    → s < 2 ^ 28
    → t < 2 ^ 28
    → s ≢ t
    → disk_read (disk_write d s b) t ≡ disk_read d t
disk_read-write_ne d s t b p q ne =
    let e : (t % 2 ^ 28 == s % 2 ^ 28) ≡ false = ground arith in
    rw (disk_read-write d s t b, e) refl

pub disk_read-write_self : (d : Disk) (s : ℕ) (b : List ℕ) → disk_read (disk_write d s b) s ≡ b
disk_read-write_self d s b =
    let e : (s % 2 ^ 28 == s % 2 ^ 28) ≡ true = ground arith in rw (disk_read-write d s s b, e) refl

module _ (fs : Volume) (laid : IsLaidOut fs) where
  pub few_clusters : clusters_of fs < 0x0ffffff8
  few_clusters =
      let at_least = scaled_le 1 fs.sectors_per_cluster (clusters_of fs) laid.some_sectors in
      let e : fs.sectors_per_cluster * clusters_of fs ≡ clusters_of fs * fs.sectors_per_cluster =
        grind arith in
      omega (arith, at_least, e, laid.fits, laid.behind)

  pub fat_sector-before : (c : ℕ) → c < clusters_of fs → fat_sector fs c < fs.first_data_sector
  fat_sector-before c lt = omega (arith, laid.behind, laid.table, laid.reserved)

  cluster_to_sector-product :
      (c : ℕ)
      → 2 ≤ c
      → c < clusters_of fs
      → (cluster_to_sector fs c ≡ fs.first_data_sector + (c - 2) * fs.sectors_per_cluster)
        × (fs.first_data_sector + (c - 2) * fs.sectors_per_cluster + fs.sectors_per_cluster
            ≤ 2 ^ 28)
  unfolding cluster_to_sector
  cluster_to_sector-product c ge lt =
      let n = fs.sectors_per_cluster in
      let e : sub32 c 2 ≡ c - 2 = omega (arith, few_clusters) in
      let bound = scaled_le (suc (c - 2)) (clusters_of fs) n (omega arith) in
      let step = scaled_suc (c - 2) n in
      (rw e (omega (arith, bound, step, laid.fits)), omega (arith, bound, step, laid.fits))

  -- The sectors of a cluster are data sectors of the disk.
  pub cluster_to_sector-inside :
      (c : ℕ)
      → 2 ≤ c
      → c < clusters_of fs
      → (fs.first_data_sector ≤ cluster_to_sector fs c)
        × (cluster_to_sector fs c + fs.sectors_per_cluster ≤ 2 ^ 28)
  cluster_to_sector-inside c ge lt = omega (arith, cluster_to_sector-product c ge lt)

  -- Two clusters have no sector in common.
  pub cluster_to_sector-apart :
      (c k : ℕ)
      → 2 ≤ c
      → c < clusters_of fs
      → 2 ≤ k
      → k < clusters_of fs
      → c ≢ k
      → (cluster_to_sector fs c + fs.sectors_per_cluster ≤ cluster_to_sector fs k)
        ⊎ (cluster_to_sector fs k + fs.sectors_per_cluster ≤ cluster_to_sector fs c)
  cluster_to_sector-apart c k ge lt ge' lt' ne =
      let n = fs.sectors_per_cluster in
      let here = cluster_to_sector-product c ge lt in
      let there = cluster_to_sector-product k ge' lt' in
      let above = scaled_suc (c - 2) n in
      let above' = scaled_suc (k - 2) n in
      elim (Bool-cases (ltb c k)) [
        | inl e ↦
            inl
              (omega (arith, here, there, above, scaled_le (suc (c - 2)) (k - 2) n (ground arith)))
        | inr e ↦
            inr
              (omega (arith, here, there, above', scaled_le (suc (k - 2)) (c - 2) n (ground arith)))
      ]

  -- A write to the table leaves the data alone.
  pub disk_read-set_next_cluster :
      (c v q : ℕ) (d : Disk)
      → c < clusters_of fs
      → fs.first_data_sector ≤ q
      → q < 2 ^ 28
      → disk_read (set_next_cluster fs c v d) q ≡ disk_read d q
  unfolding set_next_cluster
  disk_read-set_next_cluster c v q d lt from small =
      let before = fat_sector-before c lt in
      disk_read-write_ne d (fat_sector fs c) q _ (omega (arith, before, laid.fits)) small
        (omega (arith, before))

  -- A link depends on the table alone.
  pub next_cluster-same_table :
      (c : ℕ) (d e : Disk)
      → c < clusters_of fs
      → ((q : ℕ) → q < fs.first_data_sector → disk_read e q ≡ disk_read d q)
      → next_cluster fs e c ≡ next_cluster fs d c
  unfolding next_cluster
  next_cluster-same_table c d e lt same = rw (same (fat_sector fs c) (fat_sector-before c lt)) refl
