-- ===== src/Fat32/Walk.antt =====
-- The three nested loops over a directory that most functions of fat32.c have: along the cluster
-- chain, over the sectors of a cluster, and over the sixteen entries of a sector.
--
-- The body of the innermost loop is a parameter, a step on the loop's variables: it goes on, leaves
-- the loop over this sector's entries (`break`), or leaves all three (`return`).
use sojebos.Common.{ℕ, zero, suc, ◌+◌, Option, none, some, List, if◌then◌else◌, u32}
use sojebos.Disk.{Disk, disk_read}
use sojebos.Fat32.{Volume, cluster_to_sector, next_cluster, in_chain}

-- Entry `index` of the buffer read from `sector`.
pub record Slot : Type 0 where
  pub sector : ℕ
  pub buffer : List ℕ
  pub index : ℕ

pub data Step {ℓ} (S A : Type ℓ) : Type ℓ where
  go : S → Step S A
  skip : S → Step S A
  stop : A → Step S A

-- What follows a step: going on, after a `break`, and after a `return`.
abbrev pub follow {ℓ κ} : {S A : Type ℓ} {B : Type κ} → Step S A → (S → B) → (S → B) → (A → B) → B
follow (go s) on left done = on s
follow (skip s) on left done = left s
follow (stop a) on left done = done a

module _ {ℓ} {S A : Type ℓ} (visit : S → Slot → Step S A) where
  unfoldable pub scan_entries : ℕ → List ℕ → ℕ → ℕ → S → Step S A
  scan_entries sector buffer zero i s = go s
  scan_entries sector buffer (suc n) i s =
      follow (visit s (record { sector = sector; buffer = buffer; index = i }))
        (λ s'. scan_entries sector buffer n (i + 1) s') go stop

  unfoldable pub scan_sector : Disk → ℕ → S → Step S A
  scan_sector d sector s = scan_entries sector (disk_read d sector) 16 0 s

  -- `n` sectors from sector `k` of the cluster that begins at `base`
  unfoldable pub scan_sectors : Disk → ℕ → ℕ → ℕ → S → Step S A
  scan_sectors d base zero k s = go s
  scan_sectors d base (suc n) k s =
      follow (scan_sector d (u32 (base + k)) s) (λ s'. scan_sectors d base n (k + 1) s')
        (λ s'. scan_sectors d base n (k + 1) s') stop

  unfoldable pub scan_cluster : Volume → Disk → ℕ → S → Step S A
  scan_cluster fs d cluster s =
      scan_sectors d (cluster_to_sector fs cluster) fs.sectors_per_cluster 0 s

  -- `none`: out of fuel
  unfoldable pub scan_chain : Volume → Disk → ℕ → ℕ → S → Option (Step S A)
  scan_chain fs d zero cluster s = none
  scan_chain fs d (suc fuel) cluster s =
      let here : Option (Step S A) =
        follow (scan_cluster fs d cluster s)
          (λ s'. scan_chain fs d fuel (next_cluster fs d cluster) s')
          (λ s'. scan_chain fs d fuel (next_cluster fs d cluster) s') (λ a. some (stop a)) in
      if in_chain cluster then here else some (go s)
