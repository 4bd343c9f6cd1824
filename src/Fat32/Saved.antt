-- ===== src/Fat32/Saved.antt =====
-- `fat32_write_file`'s clusters: the file's bytes are in them, in order, and nothing else has changed.
use mathlib.Core.Path.{subst}
use sojebos.Common.{
  ℕ, zero, suc, ◌+◌, ◌-◌, ◌*◌, ◌^◌, ◌≤◌, ◌<◌, ◌≡◌, ◌≢◌, refl, sym, ap, ◌∙◌, inl, inr, arith, List,
  [], ◌∷◌, true, false, Bool-cases, length, take, drop, take-nil, ◌==◌, if◌then◌else◌, All,
}
use sojebos.Disk.{Disk}
use sojebos.Fat32.{Volume, next_cluster, find_free_cluster, end_of_chain, in_chain}
use sojebos.Fat32.Alloc.{find_free_cluster_lem}
use sojebos.Fat32.Chain.{Chain, All-map}
use sojebos.Fat32.Layout.{IsLaidOut, IsCluster, clusters_of, few_clusters, scaled_le, scaled_suc}
use sojebos.Fat32.Linked.{Extended, write_cluster-Extended}
use sojebos.Fat32.Slice.{cluster_bytes, chain_bytes, per_cluster, take_parts, length-cluster_bytes}
use sojebos.Fat32.Table.{IsDisk}
use sojebos.Fat32.Write.{Allocation, full, linked, write_cluster, write_clusters}

module _ (fs : Volume) where
  -- The clusters in use keep their bytes, and their links, but for one of them.
  abbrev pub Keeps : ℕ → Disk → Disk → Type 0
  Keeps prev d e =
      (k : ℕ)
      → IsCluster fs k
      → next_cluster fs d k ≢ 0
      → (cluster_bytes fs e k ≡ cluster_bytes fs d k)
        × (k ≢ prev → next_cluster fs e k ≡ next_cluster fs d k)

  abbrev pub WasFree : Disk → ℕ → Type 0
  WasFree d k = IsCluster fs k × (next_cluster fs d k ≡ 0)

  abbrev pub NoFree : Disk → Type 0
  NoFree d = (k : ℕ) → IsCluster fs k → next_cluster fs d k ≢ 0

  module _ (bytes : List ℕ) (size : ℕ) where
    -- From cluster `i` of the file on, behind the cluster `prev`: `n` clusters more, or a full disk.
    abbrev pub Saved : ℕ → ℕ → ℕ → ℕ → Disk → Allocation → Type 0
    Saved n i prev first d (full e) = IsDisk e × Keeps prev d e × NoFree e
    Saved n i prev first d (linked start e) =
        IsDisk e
        × Keeps prev d e
        × ((cs : List ℕ) × (length cs ≡ n)
            × All (WasFree d) cs
            × (i ≢ 0 → (start ≡ first) × Chain (next_cluster fs e) (next_cluster fs e prev) cs)
            × (i ≡ 0 → 1 ≤ n → Chain (next_cluster fs e) start cs)
            × (take (size - i * per_cluster fs) (chain_bytes fs e cs)
                ≡ take (n * per_cluster fs) (drop (i * per_cluster fs) bytes)))

module _ (fs : Volume) (laid : IsLaidOut fs) (bytes : List ℕ) (size n i prev first c : ℕ)
    (d d1 : Disk) (free : WasFree fs d c) (start : i ≡ 0 → prev ≡ 0)
    (ext : Extended fs bytes size i prev c d d1) where
  -- A cluster in use stays in use.
  still_used : (k : ℕ) → IsCluster fs k → next_cluster fs d k ≢ 0 → next_cluster fs d1 k ≢ 0
  still_used k ok used = elim (Bool-cases (k == prev)) [
    | inl e ↦
        let here : k ≡ prev = ground arith in
        elim (Bool-cases (i == 0)) [
          | inl z ↦ absurd (omega (arith, start (ground arith)))
          | inr nz ↦
              λ q. omega (arith, free.0, ext.2 (ground arith), q, ap (next_cluster fs d1) here)
        ]
    | inr e ↦ λ q.
        let other : k ≢ c = λ r. used (ap (next_cluster fs d) r ∙ free.1) in
        used (sym (ext.3 k ok.1 other (λ nz. ground arith)) ∙ q)
  ]

  Keeps-trans : (e : Disk) → Keeps fs c d1 e → Keeps fs prev d e
  Keeps-trans e rest k ok used =
      let other : k ≢ c = λ q. used (ap (next_cluster fs d) q ∙ free.1) in
      let (same_bytes, same_link) = rest k ok (still_used k ok used) in
      (same_bytes ∙ ext.4 k ok other, λ ne. same_link other ∙ ext.3 k ok.1 other (λ nz. ne))

  -- What was free behind the new cluster was free before it.
  WasFree-earlier : (k : ℕ) → WasFree fs d1 k → WasFree fs d k
  WasFree-earlier k (ok, z) = (
    ok,
    sym (
          ext.3 k ok.1 (λ q. omega (arith, z, ap (next_cluster fs d1) q, ext.1))
            (λ nz q. omega (arith, z, ap (next_cluster fs d1) q, ext.2 nz, free.0)))
        ∙ z,
  )

  -- One more cluster in front of the rest
  Saved-cons :
      (a : Allocation)
      → (i ≢ 0 → IsCluster fs prev × (next_cluster fs d prev ≡ end_of_chain))
      → Saved fs bytes size n (suc i) c (if i == 0 then c else first) d1 a
      → Saved fs bytes size (suc n) i prev first d a
  Saved-cons (full e) before (whole, kept, no_free) = (whole, Keeps-trans e kept, no_free)
  Saved-cons (linked s e) before (whole, kept, (cs, len, free_cs, follows, firsts, text)) =
      let (starts, chain) = follows (λ q. omega (arith, q)) in
      let few = few_clusters fs laid in
      let inside : in_chain c ≡ true = ground (arith, free.0, few) in
      let from_c : Chain (next_cluster fs e) c (c ∷ cs) = (refl, inside, chain) in
      let count : per_cluster fs + n * per_cluster fs ≡ suc n * per_cluster fs =
        omega (arith, scaled_suc n (per_cluster fs)) in
      let mine = kept c free.0 (λ q. omega (arith, q, ext.1)) in
      (
        whole,
        Keeps-trans e kept,
        (
          c ∷ cs,
          omega (arith, len),
          (free, All-map (WasFree fs d1) (WasFree fs d) cs WasFree-earlier free_cs),
          (λ nz.
              let (ok, last) = before nz in
              let joined = ext.2 nz in
              let other : prev ≢ c = λ q. omega (arith, ap (next_cluster fs d) q, last, free.1) in
              let link = (kept prev ok (λ q. omega (arith, q, joined, free.0))).1 other ∙ joined in
              let off : (i == 0) ≡ false = ground arith in
              (
                rw off at starts,
                subst (λ x. Chain (next_cluster fs e) x (c ∷ cs)) (sym link) from_c,
              )),
          (λ z le.
              let on : (i == 0) ≡ true = ground arith in
              subst (λ x. Chain (next_cluster fs e) x (c ∷ cs)) (sym (rw on at starts)) from_c),
          take_parts bytes (cluster_bytes fs e c) (chain_bytes fs e cs) size (i * per_cluster fs)
                (per_cluster fs) (n * per_cluster fs) (length-cluster_bytes fs e whole laid.small c)
                (ap (take (size - i * per_cluster fs)) mine.0 ∙ ext.5)
                (rw (scaled_suc i (per_cluster fs)) at text)
              ∙ ap (λ k. take k (drop (i * per_cluster fs) bytes)) count,
        ),
      )

module _ (fs : Volume) (laid : IsLaidOut fs) (bytes : List ℕ) (size : ℕ)
    (all : length bytes ≡ size) where
  pub write_clusters-Saved :
      (n i prev first : ℕ) (d : Disk)
      → IsDisk d
      → prev < clusters_of fs
      → (i ≡ 0 → prev ≡ 0)
      → (i ≢ 0 → IsCluster fs prev × (next_cluster fs d prev ≡ end_of_chain))
      → (i + n) * per_cluster fs ≤ 2 ^ 32
      → Saved fs bytes size n i prev first d (write_clusters fs bytes size n i prev first d)
  unfolding write_clusters
  write_clusters-Saved zero i prev first d whole small start before fits =
      let nothing : 0 ≡ 0 * per_cluster fs = omega arith in
      (
        whole,
        (λ k ok used. (refl, λ ne. refl)),
        (
          [],
          refl,
          tt,
          (λ nz. (refl, rw (before nz).1 refl)),
          (λ z le. absurd (omega arith)),
          take-nil (size - i * per_cluster fs)
              ∙ ap (λ k. take k (drop (i * per_cluster fs) bytes)) nothing,
        ),
      )
  write_clusters-Saved (suc n) i prev first d whole small start before fits =
      elim (find_free_cluster_lem fs d laid.table) [
        | inr (none_free, used) ↦
            rw none_free (whole, (λ k ok live. (refl, λ ne. refl)), λ k ok. used k ok.0 ok.1)
        | inl (ge, lt, z, least) ↦
            let c = find_free_cluster fs d in
            let some_left : (c == end_of_chain) ≡ false = ground (arith, few_clusters fs laid) in
            let next : i + 1 ≡ suc i = omega arith in
            let rounds : i + suc n ≡ suc (i + n) = omega arith in
            let rounds' : suc i + n ≡ suc (i + n) = omega arith in
            let fits' = rw rounds at fits in
            let room : i * per_cluster fs + per_cluster fs ≤ 2 ^ 32 = omega (
              arith,
              scaled_le (suc i) (suc (i + n)) (per_cluster fs) (omega arith),
              scaled_suc i (per_cluster fs),
              fits',
            ) in
            let other : i ≢ 0 → prev ≢ c =
              λ nz q. omega (arith, ap (next_cluster fs d) q, (before nz).1, z) in
            let ext =
              write_cluster-Extended fs laid bytes size all i prev c d whole (ge, lt) small other
                room in
            rw (some_left, next)
              (Saved-cons fs laid bytes size n i prev first c d
                (write_cluster fs bytes size i prev c d) ((ge, lt), z) start ext _ before
                (write_clusters-Saved n (suc i) c (if i == 0 then c else first)
                  (write_cluster fs bytes size i prev c d) ext.0 lt (λ q. absurd (omega arith))
                  (λ q. ((ge, lt), ext.1)) (rw rounds' fits')))
      ]
