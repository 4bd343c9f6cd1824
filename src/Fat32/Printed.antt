-- ===== src/Fat32/Printed.antt =====
-- The loops of `fat32_cat`: what they print of a text along a chain.
use mathlib.Core.Path.{subst}
use mathlib.Core.List.{append-nil, append_assoc}
use sojebos.Common.{
  ℕ, zero, suc, ◌+◌, ◌-◌, ◌*◌, ◌<◌, ◌≡◌, ◌≢◌, refl, sym, ap, ◌∙◌, inl, inr, arith, true, false,
  Bool-cases, some, List, [], ◌∷◌, ◌++◌, length, take, take-append, take-all, take-nil, All, ltb,
  u32, ◌==◌,
}
use sojebos.Disk.{Disk, disk_read}
use sojebos.Fat32.{Volume, cluster_to_sector, next_cluster, in_chain}
use sojebos.Fat32.Chain.{Chain}
use sojebos.Fat32.Report.{Printing, cat_sector, cat_sectors, cat_chain}
use sojebos.Fat32.Slice.{sectors_bytes, cluster_bytes, chain_bytes, length-sectors_bytes}
use sojebos.Fat32.Table.{IsDisk}
use sojebos.Strings.{c_string}

-- No terminating zero in it
abbrev pub IsText : List ℕ → Type 0
IsText s = All (λ c. c ≢ 0) s

c_string-text : (s : List ℕ) → IsText s → c_string s ≡ s
unfolding c_string
c_string-text [] h = refl
c_string-text (c ∷ s) h =
    let e : (c == 0) ≡ false = ground (arith, h.0) in rw e (ap (λ l. c ∷ l) (c_string-text s h.1))

All-split : (xs ys : List ℕ) → IsText (xs ++ ys) → IsText xs × IsText ys
All-split [] ys h = (tt, h)
All-split (x ∷ xs) ys h = let (f, g) = All-split xs ys h.1 in ((h.0, f), g)

-- The printing after `n` bytes of `bytes` have gone by
abbrev printed : ℕ → List ℕ → Printing → Printing
printed n bytes p = record {
  remaining = p.remaining - n;
  shown = p.shown ++ take p.remaining bytes;
}

printed-done : (n : ℕ) (bytes : List ℕ) (p : Printing) → p.remaining ≡ 0 → printed n bytes p ≡ p
printed-done n bytes p z =
    let e : p.remaining - n ≡ p.remaining = omega arith in rw (e, z) (rw append-nil refl)

printed-append :
    (n m : ℕ) (xs ys : List ℕ) (p : Printing)
    → length xs ≡ n
    → printed m ys (printed n xs p) ≡ printed (n + m) (xs ++ ys) p
printed-append n m xs ys p len =
    let e : p.remaining - n - m ≡ p.remaining - (n + m) = omega arith in
    rw (e, take-append p.remaining xs ys, len, append_assoc) refl

cat_sector-printed :
    (sector : List ℕ) (p : Printing)
    → length sector ≡ 512
    → IsText (take p.remaining sector)
    → cat_sector sector p ≡ printed 512 sector p
unfolding cat_sector
cat_sector-printed sector p size text = elim (Bool-cases (ltb 512 p.remaining)) [
  | inl e ↦
      let whole = take-all p.remaining sector (ground (arith, size)) in
      rw (e, take-all 512 sector (omega (arith, size)), whole)
        (rw (c_string-text sector (rw whole at text)) refl)
  | inr e ↦
      let none_left : p.remaining - p.remaining ≡ p.remaining - 512 = ground arith in
      rw (e, none_left, c_string-text (take p.remaining sector) text) refl
]

module _ (d : Disk) (whole : IsDisk d) where
  -- The parts of a text that is cut behind a sector
  split_bytes :
      (k n : ℕ) (xs ys : List ℕ)
      → length xs ≡ n
      → IsText (take k (xs ++ ys))
      → IsText (take k xs) × IsText (take (k - n) ys)
  split_bytes k n xs ys len text =
      All-split (take k xs) (take (k - n) ys) (rw (take-append k xs ys, len) at text)

  cat_sectors-printed :
      (base n i : ℕ) (p : Printing)
      → IsText (take p.remaining (sectors_bytes d base n i))
      → cat_sectors d base n i p ≡ printed (n * 512) (sectors_bytes d base n i) p
  unfolding cat_sectors
  cat_sectors-printed base zero i p text =
      let e : p.remaining - 0 ≡ p.remaining = omega arith in
      rw (e, take-nil p.remaining, append-nil) refl
  cat_sectors-printed base (suc n) i p text =
      let sector = disk_read d (u32 (base + i)) in
      let rest = sectors_bytes d base n (i + 1) in
      let size = whole (u32 (base + i)) in
      let count : 512 + n * 512 ≡ suc n * 512 = omega arith in
      elim (Bool-cases (ltb 0 p.remaining)) [
        | inl e ↦
            let (here, there) = split_bytes p.remaining 512 sector rest size text in
            rw (e, cat_sector-printed sector p size here)
              (cat_sectors-printed base n (i + 1) (printed 512 sector p) there
                ∙ printed-append 512 (n * 512) sector rest p size
                ∙ ap (λ k. printed k (sector ++ rest) p) count)
        | inr e ↦ rw e (sym (printed-done (suc n * 512) (sector ++ rest) p (ground arith)))
      ]

  -- One cluster, before the rest of the chain
  cat_chain-step :
      (fs : Volume) (ks : List ℕ) (fuel c : ℕ) (p q : Printing)
      → in_chain c ≡ true
      → ltb 0 p.remaining ≡ true
      → IsText (take p.remaining (cluster_bytes fs d c))
      → cat_chain fs d fuel
          (next_cluster fs d c)
          (printed (fs.sectors_per_cluster * 512) (cluster_bytes fs d c) p)
        ≡ some q
      → cat_chain fs d (suc fuel) c p ≡ some q
  unfolding cat_chain
  cat_chain-step fs ks fuel c p q inside more text runs =
      rw
        (inside, more, cat_sectors-printed (cluster_to_sector fs c) fs.sectors_per_cluster 0 p text)
        runs

  -- Along a chain, with fuel for its clusters, `fat32_cat` prints the bytes up to the file's size.
  pub cat_chain-printed :
      (fs : Volume) (cs : List ℕ) (fuel c : ℕ) (p : Printing)
      → Chain (next_cluster fs d) c cs
      → length cs < fuel
      → IsText (take p.remaining (chain_bytes fs d cs))
      → (q : Printing) × (cat_chain fs d fuel c p ≡ some q)
        × (q.shown ≡ p.shown ++ take p.remaining (chain_bytes fs d cs))
  unfolding cat_chain
  cat_chain-printed fs cs zero c p ch le text = absurd (omega arith)
  cat_chain-printed fs [] (suc fuel) c p ch le text = (
    p,
    rw ch refl,
    sym (append-nil p.shown) ∙ ap (λ l. p.shown ++ l) (sym (take-nil p.remaining)),
  )
  cat_chain-printed fs (k ∷ ks) (suc fuel) c p ch le text = elim (Bool-cases (ltb 0 p.remaining)) [
    | inr e ↦
        let z : p.remaining ≡ 0 = ground arith in
        (
          p,
          rw (ch.1, e) refl,
          sym (append-nil p.shown)
              ∙ ap (λ n. p.shown ++ take n (chain_bytes fs d (k ∷ ks))) (sym z),
        )
    | inl e ↦
        let width = fs.sectors_per_cluster * 512 in
        let first = cluster_bytes fs d c in
        let size = length-sectors_bytes d whole (cluster_to_sector fs c) fs.sectors_per_cluster 0 in
        let (here, there) =
          split_bytes p.remaining width first (chain_bytes fs d ks) size
            (subst (λ x. IsText (take p.remaining (chain_bytes fs d (x ∷ ks)))) ch.0 text) in
        let (q, runs, shown) =
          cat_chain-printed fs ks fuel (next_cluster fs d c) (printed width first p) ch.2
            (omega arith) there in
        (
          q,
          cat_chain-step fs ks fuel c p q ch.1 e here runs,
          shown
              ∙ ap (λ r. r.shown) (printed-append width 0 first (chain_bytes fs d ks) p size)
              ∙ ap (λ x. p.shown ++ take p.remaining (chain_bytes fs d (x ∷ ks))) (sym ch.0),
        )
  ]
