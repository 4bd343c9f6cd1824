-- ===== src/Fat32/Flat.antt =====
-- The three loops are one loop over the list of all entries of the directory.
use mathlib.Core.Path.{fun_ext}
use sojebos.Common.{
  ℕ, zero, suc, ◌+◌, ◌<◌, ◌≡◌, refl, sym, ap, Option, some, List, [], ◌∷◌, ◌++◌, length, u32, arith,
}
use sojebos.Disk.{Disk, disk_read}
use sojebos.Fat32.{Volume, cluster_to_sector, next_cluster}
use sojebos.Fat32.Chain.{Chain}
use sojebos.Fat32.Walk.{
  Slot, Step, go, skip, stop, scan_entries, scan_sector, scan_sectors, scan_cluster, scan_chain,
  follow,
}

-- The entries of a sector from entry `i` on, of the sectors of a cluster, and of a chain.
unfoldable pub sector_slots : ℕ → List ℕ → ℕ → ℕ → List Slot
sector_slots sector buffer zero i = []
sector_slots sector buffer (suc n) i =
    record { sector = sector; buffer = buffer; index = i } ∷ sector_slots sector buffer n (i + 1)

unfoldable pub slots_of_sector : Disk → ℕ → List Slot
slots_of_sector d sector = sector_slots sector (disk_read d sector) 16 0

unfoldable pub sectors_slots : Disk → ℕ → ℕ → ℕ → List Slot
sectors_slots d base zero k = []
sectors_slots d base (suc n) k =
    slots_of_sector d (u32 (base + k)) ++ sectors_slots d base n (k + 1)

unfoldable pub dir_slots : Volume → Disk → List ℕ → List Slot
dir_slots fs d [] = []
dir_slots fs d (c ∷ cs) =
    sectors_slots d (cluster_to_sector fs c) fs.sectors_per_cluster 0 ++ dir_slots fs d cs

-- One loop with an early exit. The bodies that it stands for here never leave the innermost loop
-- alone.
module _ {ℓ} {S A : Type ℓ} (visit : S → Slot → Step S A) where
  unfoldable pub run : List Slot → S → Step S A
  run [] s = go s
  run (x ∷ xs) s = follow (visit s x) (λ s'. run xs s') go stop

  abbrev pub NeverSkips : Type ℓ
  NeverSkips = (s s' : S) (x : Slot) → visit s x ≡ skip s' → ⊥

  scan_entries-run :
      (sector : ℕ) (buffer : List ℕ) (n i : ℕ) (s : S)
      → scan_entries visit sector buffer n i s ≡ run (sector_slots sector buffer n i) s
  unfolding scan_entries run sector_slots
  scan_entries-run sector buffer zero i s = refl
  scan_entries-run sector buffer (suc n) i s =
      ap (λ k. follow (visit s (record { sector = sector; buffer = buffer; index = i })) k go stop)
        (fun_ext (λ s'. scan_entries-run sector buffer n (i + 1) s'))

  scan_sector-run :
      (d : Disk) (sector : ℕ) (s : S)
      → scan_sector visit d sector s ≡ run (slots_of_sector d sector) s
  unfolding scan_sector slots_of_sector
  scan_sector-run d sector s = scan_entries-run sector (disk_read d sector) 16 0 s

  module _ (never : NeverSkips) where
    run_append_step :
        (xs ys : List Slot) (s : S) (x : Slot) (r : Step S A)
        → visit s x ≡ r
        → ((s' : S) → run (xs ++ ys) s' ≡ follow (run xs s') (λ t. run ys t) (λ t. run ys t) stop)
        → follow r (λ s'. run (xs ++ ys) s') go stop
          ≡ follow (follow r (λ s'. run xs s') go stop) (λ t. run ys t) (λ t. run ys t) stop
    run_append_step xs ys s x (go s') e ih = ih s'
    run_append_step xs ys s x (skip s') e ih = absurd (never s s' x e)
    run_append_step xs ys s x (stop a) e ih = refl

    run-append :
        (xs ys : List Slot) (s : S)
        → run (xs ++ ys) s ≡ follow (run xs s) (λ t. run ys t) (λ t. run ys t) stop
    unfolding run
    run-append [] ys s = refl
    run-append (x ∷ xs) ys s =
        run_append_step xs ys s x (visit s x) refl (λ s'. run-append xs ys s')

    scan_sectors-run :
        (d : Disk) (base n k : ℕ) (s : S)
        → scan_sectors visit d base n k s ≡ run (sectors_slots d base n k) s
    unfolding scan_sectors sectors_slots
    scan_sectors-run d base zero k s = unfold run in refl
    scan_sectors-run d base (suc n) k s =
        let rest = fun_ext (λ t. scan_sectors-run d base n (k + 1) t) in
        rw (scan_sector-run d (u32 (base + k)) s, rest)
          (sym (run-append (slots_of_sector d (u32 (base + k))) _ s))

    follow-some :
        (r : Step S A) (f : S → Option (Step S A)) (g : S → Step S A)
        → ((s : S) → f s ≡ some (g s))
        → follow r f f (λ a. some (stop a)) ≡ some (follow r g g stop)
    follow-some (go s) f g h = h s
    follow-some (skip s) f g h = h s
    follow-some (stop a) f g h = refl

    -- Along a chain, with fuel for each of its clusters, the walk is the one loop over its entries.
    pub scan_chain-run :
        (fs : Volume) (d : Disk) (cs : List ℕ) (fuel c : ℕ) (s : S)
        → Chain (next_cluster fs d) c cs
        → length cs < fuel
        → scan_chain visit fs d fuel c s ≡ some (run (dir_slots fs d cs) s)
    unfolding scan_chain dir_slots
    scan_chain-run fs d [] (suc fuel) c s ch le = rw ch (unfold run in refl)
    scan_chain-run fs d (j ∷ js) (suc fuel) c s ch le =
        let first = sectors_slots d (cluster_to_sector fs j) fs.sectors_per_cluster 0 in
        let here : scan_cluster visit fs d c s ≡ run first s =
          unfold scan_cluster in rw (← ch.0) (scan_sectors-run d _ _ 0 s) in
        rw (ch.1, here, run-append first (dir_slots fs d js) s)
          (follow-some (run first s) _ _
            (λ t. scan_chain-run fs d js fuel (next_cluster fs d c) t ch.2 (omega arith)))
    scan_chain-run fs d cs zero c s ch le = absurd (omega arith)
