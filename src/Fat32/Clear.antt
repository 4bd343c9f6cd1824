-- ===== src/Fat32/Clear.antt =====
-- Freeing a chain: the loop ends on every disk, a cyclic chain included, and on a proper chain it
-- frees exactly the chain's clusters.
use sojebos.Common.{
  ℕ, zero, suc, ◌+◌, ◌^◌, ◌≤◌, ◌<◌, ◌≡◌, ◌≢◌, List, [], ◌∷◌, arith, inl, inr, refl,
}
use sojebos.Common.{◌==◌, if◌then◌else◌, Bool-cases, ◌∙◌, true, All, some, length, sym}
use sojebos.Disk.{Disk}
use sojebos.Fat32.{Volume, next_cluster, set_next_cluster, clear_chain, in_chain}
use sojebos.Fat32.Table.{IsDisk, IsVolume, next-set_next_cluster, set_next_cluster-IsDisk}
use sojebos.Fat32.Chain.{Chain, NotIn, Distinct, Chain-congr, Chain-in_chain, All-map, All-both}

-- How many clusters below a bound have a link.
unfoldable pub links_below : (ℕ → ℕ) → ℕ → ℕ
links_below link zero = 0
links_below link (suc n) = (if link n == 0 then 0 else 1) + links_below link n

links_below-same :
    (f g : ℕ → ℕ) (n : ℕ) → ((k : ℕ) → k < n → g k ≡ f k) → links_below g n ≡ links_below f n
unfolding links_below
links_below-same f g zero same = refl
links_below-same f g (suc n) same =
    rw (same n (omega arith), links_below-same f g n (λ k lt. same k (omega arith))) refl

-- Clearing one link takes it out of the count.
links_below-clear :
    (f g : ℕ → ℕ) (n c : ℕ)
    → c < n
    → f c ≢ 0
    → g c ≡ 0
    → ((k : ℕ) → k < n → k ≢ c → g k ≡ f k)
    → links_below g n + 1 ≡ links_below f n
unfolding links_below
links_below-clear f g zero c lt was now same = absurd (omega arith)
links_below-clear f g (suc n) c lt was now same = elim (Bool-cases (n == c)) [
  | inl e ↦
      let eq : n ≡ c = ground arith in
      let rest = links_below-same f g n (λ k b. same k (omega arith) (omega arith)) in
      rw eq (ground (arith, rw eq at rest))
  | inr e ↦ ground (
    arith,
    links_below-clear f g n c (ground arith) was now (λ k b. same k (omega arith)),
    same n (omega arith) (ground arith),
  )
]

module _ (fs : Volume) (volume : IsVolume fs) where
  clear_chain-zero :
      (fuel : ℕ) (d : Disk) → 1 ≤ fuel → (d' : Disk) × (clear_chain fs fuel 0 d ≡ some d')
  unfolding clear_chain
  clear_chain-zero zero d le = absurd (omega arith)
  clear_chain-zero (suc fuel) d le = (d, refl)

  -- Freeing ends from every cluster of every disk, also along a cyclic chain: two rounds more than the
  -- links below 2 ^ 28 that are not free are enough.
  pub clear_chain-total :
      (fuel c : ℕ) (d : Disk)
      → IsDisk d
      → links_below (next_cluster fs d) (2 ^ 28) + 2 ≤ fuel
      → (d' : Disk) × (clear_chain fs fuel c d ≡ some d')
  unfolding clear_chain
  clear_chain-total zero c d whole le = absurd (omega arith)
  clear_chain-total (suc fuel) c d whole le = elim (Bool-cases (in_chain c)) [
    | inr out ↦ (d, rw out)
    | inl inside ↦
        let small : c < 2 ^ 28 = ground arith in
        let w = next-set_next_cluster fs d whole volume c 0 small in
        let d1 = set_next_cluster fs c 0 d in
        elim (Bool-cases (next_cluster fs d c == 0)) [
          | inl last ↦
              let z : next_cluster fs d c ≡ 0 = ground arith in
              rw (inside, z) (clear_chain-zero fuel d1 (omega arith))
          | inr more ↦
              let fewer =
                links_below-clear (next_cluster fs d) (next_cluster fs d1) (2 ^ 28) c small
                  (ground arith) w.0 w.2 in
              rw inside (
                clear_chain-total fuel (next_cluster fs d c) d1
                  (set_next_cluster-IsDisk fs c 0 d whole) (omega arith))
        ]
  ]

  -- On a chain that meets no cluster twice, and with more fuel than it has clusters, the loop ends and
  -- leaves every cluster of the chain free and every other link as it was.
  pub clear_chain-frees :
      (cs : List ℕ) (fuel c : ℕ) (d : Disk)
      → IsDisk d
      → Chain (next_cluster fs d) c cs
      → Distinct cs
      → length cs < fuel
      → (d' : Disk) × (clear_chain fs fuel c d ≡ some d')
        × IsDisk d'
        × All (λ k. next_cluster fs d' k ≡ 0) cs
        × ((k : ℕ) → k < 2 ^ 28 → NotIn k cs → next_cluster fs d' k ≡ next_cluster fs d k)
  unfolding clear_chain
  clear_chain-frees [] (suc fuel) c d whole ch dist le = (d, rw ch, whole, tt, λ k lt out. refl)
  clear_chain-frees (j ∷ js) (suc fuel) c d whole ch dist le =
      let small : c < 2 ^ 28 = ground (arith, ch.1) in
      let w = next-set_next_cluster fs d whole volume c 0 small in
      let d1 = set_next_cluster fs c 0 d in
      let inside = Chain-in_chain (next_cluster fs d) (next_cluster fs d c) js ch.2 in
      let same =
        All-map _ (λ k. next_cluster fs d k ≡ next_cluster fs d1 k) js
          (λ k both. sym (w.2 k (ground (arith, both.1)) (λ e. both.0 (ch.0 ∙ sym e))))
          (All-both (λ k. j ≢ k) (λ k. in_chain k ≡ true) js dist.0 inside) in
      let (d2, run, whole2, freed, kept) =
        clear_chain-frees js fuel (next_cluster fs d c) d1 (set_next_cluster-IsDisk fs c 0 d whole)
          (Chain-congr _ _ _ js same ch.2) dist.1 (omega arith) in
      (
        d2,
        rw ch.1 run,
        whole2,
        (rw ch.0 (kept c small (rw ch.0 at dist.0) ∙ w.0), freed),
        λ k lt out. kept k lt out.1 ∙ w.2 k lt (λ e. out.0 (e ∙ sym ch.0)),
      )
  clear_chain-frees cs zero c d whole ch dist le = absurd (omega arith)
