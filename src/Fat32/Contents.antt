-- ===== src/Fat32/Contents.antt =====
-- Reading along a cluster chain, and from an open file: a slice of the file's bytes.
use mathlib.Core.List.{append_assoc, append-nil}
use sojebos.Common.{
  ℕ, zero, suc, ◌+◌, ◌-◌, ◌^◌, ◌≤◌, ◌<◌, ◌≡◌, refl, sym, ap, ◌∙◌, ◌⊎◌, inl, inr, Bool-cases, none,
  some, List, [], ◌∷◌, ◌++◌, arith, length, length-drop, leb, ltb, ltb→lt, u32, take, drop, min,
  take-nil, drop-nil, take-append, drop-append, take-take, drop-take, drop-all,
}
use sojebos.Disk.{Disk}
use sojebos.Fat32.{Volume, next_cluster}
use sojebos.Fat32.Chain.{Chain}
use sojebos.Fat32.Read.{
  Reading, seek, read_cluster, read_chain, read_absolute, vfs_read_size, fat32_vfs_read,
}
use sojebos.Fat32.Slice.{
  cluster_bytes, chain_bytes, per_cluster, length-cluster_bytes, read_cluster_lem,
}
use sojebos.Fat32.Table.{IsDisk}

-- Two reads in a row, the first of them up to the end of its part, are one.
joined_reads :
    (out out' : List ℕ) (n n' o o' : ℕ) (xs ys : List ℕ)
    → o ≤ length xs
    → out' ≡ out ++ take n (drop o xs)
    → n' ≡ n - (length xs - o)
    → o' ≡ 0
    → out' ++ take n' (drop o' ys) ≡ out ++ take n (drop o (xs ++ ys))
joined_reads out out' n n' o o' xs ys inside e f g =
    let past : o - length xs ≡ 0 = omega arith in
    let left : n - length (drop o xs) ≡ n - (length xs - o) = omega (arith, length-drop o xs) in
    let whole : take n (drop o (xs ++ ys)) ≡ take n (drop o xs) ++ take (n - (length xs - o)) ys =
      ap (take n) (drop-append o xs ys ∙ ap (λ k. drop o xs ++ drop k ys) past)
      ∙ take-append n (drop o xs) ys
      ∙ ap (λ k. take n (drop o xs) ++ take k ys) left in
    rw (e, f, g, whole) (append_assoc out _ _)

module _ (fs : Volume) (d : Disk) (whole : IsDisk d) (some_sectors : 1 ≤ fs.sectors_per_cluster)
    (small : fs.sectors_per_cluster < 256) where
  abbrev link : ℕ → ℕ
  link = next_cluster fs d

  -- The loop over the clusters ends, with a slice of the chain's bytes.
  read_chain_lem :
      (cs : List ℕ) (fuel c : ℕ) (r : Reading)
      → length cs < fuel
      → Chain link c cs
      → (0 < r.size → r.offset < per_cluster fs)
      → (r' : Reading) × (read_chain fs d fuel c r ≡ some r')
        × (r'.out ≡ r.out ++ take r.size (drop r.offset (chain_bytes fs d cs)))
  unfolding read_chain
  read_chain_lem cs zero c r le ch inside = absurd (omega arith)
  read_chain_lem [] (suc fuel) c r le ch inside =
      let nothing : r.out ≡ r.out ++ take r.size (drop r.offset []) = sym (
        ap (λ l. r.out ++ l) (ap (take r.size) (drop-nil r.offset) ∙ take-nil r.size)
        ∙ append-nil r.out) in
      elim (Bool-cases (ltb 0 r.size)) [
        | inl e ↦ (r, rw (e, ch) refl, nothing)
        | inr e ↦ (r, rw e refl, nothing)
      ]
  read_chain_lem (k ∷ ks) (suc fuel) c r le ch inside = elim (Bool-cases (ltb 0 r.size)) [
    | inr e ↦ let z : r.size ≡ 0 = ground arith in (r, rw e refl, rw z (sym (append-nil r.out)))
    | inl e ↦
        let within = inside (ltb→lt _ _ e) in
        let (out, size, offset) = read_cluster_lem fs d whole small c r within (ltb→lt _ _ e) in
        let (r', run, rest) =
          read_chain_lem ks fuel (link c) (read_cluster fs d c r) (omega arith) ch.2
            (λ p. omega (arith, offset)) in
        let len = length-cluster_bytes fs d whole small c in
        let joined =
          joined_reads r.out (read_cluster fs d c r).out r.size (read_cluster fs d c r).size
            r.offset (read_cluster fs d c r).offset (cluster_bytes fs d c) (chain_bytes fs d ks)
            (omega (arith, len)) out (size ∙ omega (arith, len)) offset in
        let here = sym (
          ap
            (λ j.
              r.out ++ take r.size (drop r.offset (cluster_bytes fs d j ++ chain_bytes fs d ks)))
            ch.0) in
        (r', rw (e, ch.1) run, rest ∙ joined ∙ here)
  ]

  drop-cluster_bytes :
      (c offset : ℕ) (rest : List ℕ)
      → per_cluster fs ≤ offset
      → drop offset (cluster_bytes fs d c ++ rest) ≡ drop (offset - per_cluster fs) rest
  drop-cluster_bytes c offset rest le =
      let len = length-cluster_bytes fs d whole small c in
      drop-append offset (cluster_bytes fs d c) rest
      ∙ rw (drop-all offset (cluster_bytes fs d c) (omega (arith, len)), len) refl

  -- Where the seek ends: at a cluster of the chain, or behind it.
  seek_lem :
      (cs : List ℕ) (fuel c offset : ℕ)
      → length cs < fuel
      → Chain link c cs
      → 1 ≤ length cs
      → ((seek fs d fuel c offset ≡ some none) × (drop offset (chain_bytes fs d cs) ≡ []))
        ⊎ ((ks : List ℕ) × (k : ℕ) × (within : ℕ) × (seek fs d fuel c offset
              ≡ some (some (k, within)))
            × (within < per_cluster fs)
            × (length ks ≤ length cs)
            × Chain link k ks
            × (drop offset (chain_bytes fs d cs) ≡ drop within (chain_bytes fs d ks)))
  unfolding seek
  seek_lem cs zero c offset le ch more = absurd (omega arith)
  seek_lem [] (suc fuel) c offset le ch more = absurd (omega arith)
  seek_lem (k ∷ []) (suc fuel) c offset le ch more =
      elim (Bool-cases (leb (per_cluster fs) offset)) [
        | inr e ↦ inr (k ∷ [], c, offset, rw e refl, ground arith, omega arith, ch, refl)
        | inl e ↦ inl (
          rw (e, ch.2) refl,
          drop-cluster_bytes k offset [] (ground arith) ∙ drop-nil (offset - per_cluster fs),
        )
      ]
  seek_lem (k ∷ j ∷ js) (suc fuel) c offset le ch more =
      elim (Bool-cases (leb (per_cluster fs) offset)) [
        | inr e ↦ inr (k ∷ j ∷ js, c, offset, rw e refl, ground arith, omega arith, ch, refl)
        | inl e ↦
            let skip = drop-cluster_bytes k offset (chain_bytes fs d (j ∷ js)) (ground arith) in
            elim (seek_lem (j ∷ js) fuel (link c) (offset - per_cluster fs) (omega arith) ch.2
              (omega arith)) [
                | inl (run, behind) ↦ inl (rw (e, ch.2.1) run, skip ∙ behind)
                | inr (ks, k', within, run, lt, len, ch', same) ↦
                    inr
                      (ks, k', within, rw (e, ch.2.1) run, lt, omega (arith, len), ch', skip ∙ same)
              ]
      ]

  -- On a chain of at least one cluster, with clusters of 1 to 255 sectors and more fuel than the chain
  -- has clusters, reading at an offset returns, and gives the slice of the chain's bytes.
  pub read_absolute-chain_bytes :
      (cs : List ℕ) (fuel start offset size : ℕ)
      → length cs < fuel
      → Chain link start cs
      → 1 ≤ length cs
      → read_absolute fs d fuel start offset size
        ≡ some (take size (drop offset (chain_bytes fs d cs)))
  unfolding read_absolute
  read_absolute-chain_bytes cs fuel start offset size le ch more =
      elim (seek_lem cs fuel start offset le ch more) [
        | inl (run, behind) ↦ rw (run, read_absolute, behind) (ap some (sym (take-nil size)))
        | inr (ks, k, within, run, lt, len, ch', same) ↦
            let (r, read, out) =
              read_chain_lem ks fuel k (record { offset = within; size = size; out = [] })
                (omega (arith, len)) ch' (λ p. lt) in
            rw (run, read, read_absolute, out, same) refl
      ]

  -- Reading from an open file, the same conditions given, returns the slice of the file: of the first
  -- bytes of its chain, as many as its size says. The sum of offset and size has to stay below 2 ^ 32.
  pub fat32_vfs_read-slice :
      (cs : List ℕ) (fuel inode file_size offset size : ℕ)
      → length cs < fuel
      → Chain link inode cs
      → 1 ≤ length cs
      → offset + size < 2 ^ 32
      → fat32_vfs_read fs d fuel inode file_size offset size
        ≡ some (take size (drop offset (take file_size (chain_bytes fs d cs))))
  unfolding fat32_vfs_read vfs_read_size
  fat32_vfs_read-slice cs fuel inode file_size offset size le ch more fits =
      let bytes = chain_bytes fs d cs in
      let slice = drop-take offset file_size bytes in
      let clip = take-take size (file_size - offset) (drop offset bytes) in
      let sum : u32 (offset + size) ≡ offset + size = omega arith in
      let read = λ (n : ℕ). read_absolute-chain_bytes cs fuel inode offset n le ch more in
      elim (Bool-cases (leb file_size offset)) [
        | inl e ↦
            let nothing : file_size - offset ≡ 0 = ground arith in
            rw (e, fat32_vfs_read, slice, nothing) (ap some (sym (take-nil size)))
        | inr e ↦ elim (Bool-cases (ltb file_size (offset + size))) [
          | inl f ↦
              let less : min size (file_size - offset) ≡ file_size - offset = ground arith in
              rw (e, sum, f, vfs_read_size, fat32_vfs_read, slice, clip, less)
                (read (file_size - offset))
          | inr f ↦
              let all : min size (file_size - offset) ≡ size = ground arith in
              rw (e, sum, f, vfs_read_size, fat32_vfs_read, slice, clip, all) (read size)
        ]
      ]
