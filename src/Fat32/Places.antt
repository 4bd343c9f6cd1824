-- ===== src/Fat32/Places.antt =====
-- The entries of a directory by their places, and an unused entry that is filled in.

use mathlib.Core.List.{map-append}
use sojebos.Common.{
  ℕ, zero, suc, ◌+◌, ◌≤◌, ◌<◌, ◌≡◌, refl, ap, ◌⊎◌, inl, inr, arith, true, false, ◌||◌, Bool-cases,
  some, none, List, [], ◌∷◌, ◌++◌, map, u32, All,
}
use sojebos.Disk.{Disk, disk_read}
use sojebos.Fat32.{Volume, cluster_to_sector}
use sojebos.Fat32.Find.{is_end, is_deleted, found_or_none}
use sojebos.Fat32.Flat.{sector_slots, slots_of_sector, sectors_slots, dir_slots, run}
use sojebos.Fat32.Layout.{IsLaidOut, IsCluster, cluster_to_sector-inside}
use sojebos.Fat32.Walk.{Slot, stop}
use sojebos.Fat32.Write.{visit_unused}

-- A sector, and the number of an entry in it
pub record Place : Type 0 where
  pub sector : ℕ
  pub index : ℕ

abbrev pub slot : Disk → Place → Slot
slot d p = record { sector = p.sector; buffer = disk_read d p.sector; index = p.index }

unfoldable pub sector_places : ℕ → ℕ → ℕ → List Place
sector_places sector zero i = []
sector_places sector (suc n) i =
    record { sector = sector; index = i } ∷ sector_places sector n (i + 1)

unfoldable pub sectors_places : ℕ → ℕ → ℕ → List Place
sectors_places base zero k = []
sectors_places base (suc n) k = sector_places (u32 (base + k)) 16 0 ++ sectors_places base n (k + 1)

unfoldable pub dir_places : Volume → List ℕ → List Place
dir_places fs [] = []
dir_places fs (c ∷ cs) =
    sectors_places (cluster_to_sector fs c) fs.sectors_per_cluster 0 ++ dir_places fs cs

sector_slots-map :
    (d : Disk) (sector n i : ℕ)
    → sector_slots sector (disk_read d sector) n i ≡ map (slot d) (sector_places sector n i)
unfolding sector_slots sector_places
sector_slots-map d sector zero i = refl
sector_slots-map d sector (suc n) i =
    ap (λ l. slot d (record { sector = sector; index = i }) ∷ l)
      (sector_slots-map d sector n (i + 1))

sectors_slots-map :
    (d : Disk) (base n k : ℕ) → sectors_slots d base n k ≡ map (slot d) (sectors_places base n k)
unfolding sectors_slots sectors_places slots_of_sector
sectors_slots-map d base zero k = refl
sectors_slots-map d base (suc n) k =
    rw
      (
        map-append (slot d) (sector_places (u32 (base + k)) 16 0) _,
        sectors_slots-map d base n (k + 1),
        sector_slots-map d (u32 (base + k)) 16 0,
      )
      refl

-- The entries of a directory are what the disk has at its places.
pub dir_slots-map :
    (fs : Volume) (d : Disk) (cs : List ℕ) → dir_slots fs d cs ≡ map (slot d) (dir_places fs cs)
unfolding dir_slots dir_places
dir_slots-map fs d [] = refl
dir_slots-map fs d (c ∷ cs) =
    rw
      (
        map-append (slot d) (sectors_places (cluster_to_sector fs c) fs.sectors_per_cluster 0) _,
        sectors_slots-map d (cluster_to_sector fs c) fs.sectors_per_cluster 0,
        dir_slots-map fs d cs,
      )
      refl

All-append {ℓ κ} :
    {A : Type ℓ} (P : A → Type κ) (xs ys : List A) → All P xs → All P ys → All P (xs ++ ys)
All-append P [] ys f g = g
All-append P (x ∷ xs) ys f g = (f.0, All-append P xs ys f.1 g)

-- An entry of one of the clusters that `P` holds of
abbrev pub Inside : Volume → (ℕ → Type 0) → Place → Type 0
Inside fs P p =
    (p.index < 16)
    × ((c : ℕ) × IsCluster fs c
        × P c
        × (cluster_to_sector fs c ≤ p.sector)
        × (p.sector < cluster_to_sector fs c + fs.sectors_per_cluster))

module _ (fs : Volume) (laid : IsLaidOut fs) (P : ℕ → Type 0) where
  module _ (c : ℕ) (ok : IsCluster fs c) (holds : P c) where
    sector_places-Inside :
        (sector n i : ℕ)
        → i + n ≤ 16
        → cluster_to_sector fs c ≤ sector
        → sector < cluster_to_sector fs c + fs.sectors_per_cluster
        → All (Inside fs P) (sector_places sector n i)
    unfolding sector_places
    sector_places-Inside sector zero i le from to = tt
    sector_places-Inside sector (suc n) i le from to = (
      (omega arith, (c, ok, holds, from, to)),
      sector_places-Inside sector n (i + 1) (omega arith) from to,
    )

    sectors_places-Inside :
        (n k : ℕ)
        → k + n ≤ fs.sectors_per_cluster
        → All (Inside fs P) (sectors_places (cluster_to_sector fs c) n k)
    unfolding sectors_places
    sectors_places-Inside zero k le = tt
    sectors_places-Inside (suc n) k le =
        let inside = cluster_to_sector-inside fs laid c ok.0 ok.1 in
        All-append (Inside fs P) (sector_places (u32 (cluster_to_sector fs c + k)) 16 0) _
          (sector_places-Inside (u32 (cluster_to_sector fs c + k)) 16 0 (omega arith)
            (omega (arith, inside)) (omega (arith, inside)))
          (sectors_places-Inside n (k + 1) (omega arith))

  pub dir_places-Inside :
      (cs : List ℕ) → All (λ c. IsCluster fs c × P c) cs → All (Inside fs P) (dir_places fs cs)
  unfolding dir_places
  dir_places-Inside [] all = tt
  dir_places-Inside (c ∷ cs) all =
      All-append (Inside fs P) (sectors_places (cluster_to_sector fs c) fs.sectors_per_cluster 0) _
        (sectors_places-Inside c all.0.0 all.0.1 fs.sectors_per_cluster 0 (omega arith))
        (dir_places-Inside cs all.1)

-- Free for a new entry: the end mark, or deleted
abbrev pub IsUnused : Slot → Type 0
IsUnused x = (is_end x || is_deleted x) ≡ true

-- The search for an unused entry stops at one of the places, or all of them are taken.
pub run-unused :
    (d : Disk) (P : Place → Type 0) (ps : List Place)
    → All P ps
    → ((found_or_none (run visit_unused (map (slot d) ps) tt) ≡ none)
        × All (λ p. (is_end (slot d p) || is_deleted (slot d p)) ≡ false) ps)
      ⊎ ((p : Place) × P p
          × IsUnused (slot d p)
          × (run visit_unused (map (slot d) ps) tt ≡ stop (some (slot d p))))
unfolding run visit_unused
run-unused d P [] all = inl (refl, tt)
run-unused d P (p ∷ ps) all = elim (Bool-cases (is_end (slot d p) || is_deleted (slot d p))) [
  | inl e ↦ inr (p, all.0, e, rw e refl)
  | inr e ↦ elim (run-unused d P ps all.1) [
    | inl (z, rest) ↦ inl (rw e z, (e, rest))
    | inr (q, inside, unused, r) ↦ inr (q, inside, unused, rw e r)
  ]
]
