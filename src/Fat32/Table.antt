-- ===== src/Fat32/Table.antt =====
-- The table entry of a cluster: reading after writing, and what a write leaves alone.
use sojebos.Common.{
  ℕ, ◌+◌, ◌*◌, ◌/◌, ◌%◌, ◌^◌, ◌≤◌, ◌<◌, ◌≡◌, ◌≢◌, refl, sym, ◌∙◌, List, arith, length, inl, inr,
  ◌⊎◌,
}
use sojebos.Common.{◌==◌, Bool-cases, true}
use sojebos.Disk.{Disk, disk_read, disk_write}
use sojebos.Disk.Fields.{
  get_u32, get_u32-put_u32, get_u32-put_u32_ne, length-put_u32, disk_read-write,
}
use sojebos.Fat32.{Volume, fat_sector, entry_offset, next_cluster, set_next_cluster}

-- Every sector has 512 bytes.
abbrev pub IsDisk : Disk → Type 0
IsDisk d = (s : ℕ) → length (disk_read d s) ≡ 512

-- The count of reserved sectors comes from a field of 16 bits.
abbrev pub IsVolume : Volume → Type 0
IsVolume fs = fs.reserved_sector_count < 2 ^ 16

pub disk_write-IsDisk :
    (d : Disk) (s : ℕ) (b : List ℕ) → IsDisk d → length b ≡ 512 → IsDisk (disk_write d s b)
disk_write-IsDisk d s b h e t = rw (disk_read-write d s t b) (ground (arith, h t))

pub set_next_cluster-IsDisk :
    (fs : Volume) (c v : ℕ) (d : Disk) → IsDisk d → IsDisk (set_next_cluster fs c v d)
unfolding set_next_cluster
set_next_cluster-IsDisk fs c v d h =
    disk_write-IsDisk d _ _ h (rw length-put_u32 (h (fat_sector fs c)))

-- The whole entry, its top four bits included.
unfoldable pub raw_entry : Volume → Disk → ℕ → ℕ
raw_entry fs d cluster = get_u32 (disk_read d (fat_sector fs cluster)) (entry_offset cluster)

pub next_cluster-raw_entry :
    (fs : Volume) (d : Disk) (c : ℕ) → next_cluster fs d c ≡ raw_entry fs d c % 2 ^ 28
unfolding next_cluster raw_entry
next_cluster-raw_entry fs d c = refl

module _ (fs : Volume) (d : Disk) (whole : IsDisk d) (volume : IsVolume fs) (c v : ℕ)
    (small : c < 2 ^ 28) where
  raw_entry-set_self :
      raw_entry fs (set_next_cluster fs c v d) c
      ≡ (v % 2 ^ 28 + raw_entry fs d c / 2 ^ 28 * 2 ^ 28) % 2 ^ 32
  unfolding raw_entry set_next_cluster
  raw_entry-set_self =
      let same : (fat_sector fs c % 2 ^ 28 == fat_sector fs c % 2 ^ 28) ≡ true = ground arith in
      rw (disk_read-write d (fat_sector fs c) (fat_sector fs c), same)
        (get_u32-put_u32 (disk_read d (fat_sector fs c)) (entry_offset c) _
          (omega (arith, whole (fat_sector fs c))))

  raw_entry-set_ne :
      (k : ℕ) → k < 2 ^ 28 → k ≢ c → raw_entry fs (set_next_cluster fs c v d) k ≡ raw_entry fs d k
  unfolding raw_entry set_next_cluster
  raw_entry-set_ne k lt ne =
      elim (Bool-cases (fat_sector fs k % 2 ^ 28 == fat_sector fs c % 2 ^ 28)) [
        | inr other ↦ rw (disk_read-write d (fat_sector fs c) (fat_sector fs k), other) refl
        | inl same ↦
            let e : fat_sector fs k ≡ fat_sector fs c = ground arith in
            let apart : (entry_offset k + 4 ≤ entry_offset c)
                ⊎ (entry_offset c + 4 ≤ entry_offset k) =
              omega arith in
            rw (disk_read-write d (fat_sector fs c) (fat_sector fs k), same, e)
              (get_u32-put_u32_ne (disk_read d (fat_sector fs c)) (entry_offset c) _
                (entry_offset k) apart)
      ]

  -- For a cluster below 2 ^ 28, reading a link back gives the low 28 bits written, the top four bits of the entry are kept, and
  -- the link of every other cluster is as it was.
  pub next-set_next_cluster :
      (next_cluster fs (set_next_cluster fs c v d) c ≡ v % 2 ^ 28)
      × (raw_entry fs (set_next_cluster fs c v d) c / 2 ^ 28 ≡ raw_entry fs d c / 2 ^ 28 % 16)
      × ((k : ℕ)
          → k < 2 ^ 28
          → k ≢ c
          → next_cluster fs (set_next_cluster fs c v d) k ≡ next_cluster fs d k)
  next-set_next_cluster = (
    next_cluster-raw_entry fs _ c ∙ omega (arith, raw_entry-set_self),
    omega (arith, raw_entry-set_self),
    λ k lt ne.
        next_cluster-raw_entry fs _ k
        ∙ omega (arith, raw_entry-set_ne k lt ne)
        ∙ sym (next_cluster-raw_entry fs d k),
  )
