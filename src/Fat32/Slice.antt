-- ===== src/Fat32/Slice.antt =====
-- Reading a file is reading a slice of the bytes of its cluster chain.
use mathlib.Core.List.{append_assoc, append-nil}
use sojebos.Common.{
  ℕ, zero, suc, ◌+◌, ◌-◌, ◌*◌, ◌/◌, ◌%◌, ◌≤◌, ◌<◌, ◌≡◌, refl, sym, ap, ◌∙◌, inl, inr, true,
  Bool-cases, List, [], ◌∷◌, ◌++◌, arith, length, length-append, length-drop, ltb, u32, take, drop,
  min, take-nil, drop-nil, take-min, take-append, drop-append, drop_add, take_add, drop-all,
}
use sojebos.Disk.{Disk, disk_read}
use sojebos.Fat32.{Volume, cluster_to_sector}
use sojebos.Fat32.Read.{Reading, read_sector, read_sectors, read_cluster}
use sojebos.Fat32.Table.{IsDisk}

-- The bytes of `n` sectors from sector `s` on, of a cluster, and of a chain.
abbrev pub sectors_bytes : Disk → ℕ → ℕ → ℕ → List ℕ
sectors_bytes d base zero s = []
sectors_bytes d base (suc n) s = disk_read d (u32 (base + s)) ++ sectors_bytes d base n (s + 1)

abbrev pub cluster_bytes : Volume → Disk → ℕ → List ℕ
cluster_bytes fs d c = sectors_bytes d (cluster_to_sector fs c) fs.sectors_per_cluster 0

abbrev pub chain_bytes : Volume → Disk → List ℕ → List ℕ
chain_bytes fs d [] = []
chain_bytes fs d (c ∷ cs) = cluster_bytes fs d c ++ chain_bytes fs d cs

-- A slice that goes over the border of two parts
pub slice_append :
    (n o : ℕ) (xs ys : List ℕ)
    → o ≤ length xs
    → take n (drop o (xs ++ ys))
      ≡ take (min (length xs - o) n) (drop o xs) ++ take (n - min (length xs - o) n) ys
slice_append n o xs ys h =
    let e : o - length xs ≡ 0 = omega arith in
    let f : n - length (drop o xs) ≡ n - min (length xs - o) n = omega (arith, length-drop o xs) in
    let g : take n (drop o xs) ≡ take (min (length xs - o) n) (drop o xs) =
      take-min n (drop o xs) ∙ ap (λ k. take (min k n) (drop o xs)) (length-drop o xs) in
    ap (take n) (drop-append o xs ys ∙ ap (λ k. drop o xs ++ drop k ys) e)
    ∙ take-append n (drop o xs) ys
    ∙ ap (λ l. l ++ take (n - length (drop o xs)) ys) g
    ∙ ap (λ k. take (min (length xs - o) n) (drop o xs) ++ take k ys) f

-- A text in two parts: the first up to its length, and the rest.
pub take_parts :
    (bytes first rest : List ℕ) (size o len m : ℕ)
    → length first ≡ len
    → take (size - o) first ≡ take len (drop o bytes)
    → take (size - (o + len)) rest ≡ take m (drop (o + len) bytes)
    → take (size - o) (first ++ rest) ≡ take (len + m) (drop o bytes)
take_parts bytes first rest size o len m e here there =
    let left : size - o - length first ≡ size - (o + len) = omega arith in
    take-append (size - o) first rest
    ∙ rw (left, here, there, drop_add o len bytes) (sym (take_add len m (drop o bytes)))

module _ (d : Disk) (whole : IsDisk d) (base : ℕ) where
  pub length-sectors_bytes : (n s : ℕ) → length (sectors_bytes d base n s) ≡ n * 512
  length-sectors_bytes zero s = refl
  length-sectors_bytes (suc n) s =
      length-append (disk_read d (u32 (base + s))) (sectors_bytes d base n (s + 1))
      ∙ omega (arith, whole (u32 (base + s)), length-sectors_bytes n (s + 1))

  drop-sectors_bytes :
      (k n s : ℕ) → drop (k * 512) (sectors_bytes d base n s) ≡ sectors_bytes d base (n - k) (s + k)
  drop-sectors_bytes zero n s =
      let e : n ≡ n - 0 = omega arith in
      let f : s ≡ s + 0 = omega arith in
      ap (λ k. sectors_bytes d base k s) e ∙ ap (λ k. sectors_bytes d base (n - 0) k) f
  drop-sectors_bytes (suc k) zero s =
      let e : 0 ≡ 0 - suc k = omega arith in
      drop-nil (suc k * 512) ∙ ap (λ m. sectors_bytes d base m (s + suc k)) e
  drop-sectors_bytes (suc k) (suc n) s =
      let first = disk_read d (u32 (base + s)) in
      let rest = sectors_bytes d base n (s + 1) in
      let e : suc k * 512 ≡ 512 + k * 512 = omega arith in
      let none_left : 512 - length first ≡ 0 = omega (arith, whole (u32 (base + s))) in
      let m : n - k ≡ suc n - suc k = omega arith in
      let t : s + 1 + k ≡ s + suc k = omega arith in
      ap (λ j. drop j (first ++ rest)) e
      ∙ drop_add 512 (k * 512) (first ++ rest)
      ∙ ap (drop (k * 512)) (
          drop-append 512 first rest
          ∙ rw (drop-all 512 first (omega (arith, whole (u32 (base + s)))), none_left) refl)
      ∙ drop-sectors_bytes k n (s + 1)
      ∙ ap (λ j. sectors_bytes d base j (s + 1 + k)) m
      ∙ ap (λ j. sectors_bytes d base (suc n - suc k) j) t

  -- The sectors read are a slice of their bytes.
  read_sectors_lem :
      (n s within : ℕ) (r : Reading)
      → within ≤ 512
      → ((read_sectors d base n s within r).out
          ≡ r.out ++ take r.size (drop within (sectors_bytes d base n s)))
        × ((read_sectors d base n s within r).size ≡ r.size - (n * 512 - within))
  unfolding read_sectors read_sector
  read_sectors_lem zero s within r h = (
    sym (append-nil r.out)
        ∙ ap (λ l. r.out ++ l) (sym (take-nil r.size) ∙ ap (take r.size) (sym (drop-nil within))),
    omega arith,
  )
  read_sectors_lem (suc n) s within r h = elim (Bool-cases (ltb 0 r.size)) [
    | inr e ↦
        let z : r.size ≡ 0 = ground arith in
        (rw (e, z) (sym (append-nil r.out)), rw (e, z) (omega arith))
    | inl e ↦
        let first = disk_read d (u32 (base + s)) in
        let rest = sectors_bytes d base n (s + 1) in
        let len = whole (u32 (base + s)) in
        let whole_first : within ≤ length first = omega (arith, len) in
        let same : length first - within ≡ 512 - within = omega (arith, len) in
        let (out, size) =
          read_sectors_lem n (s + 1) 0 (read_sector d (u32 (base + s)) within r) (omega arith) in
        (
          rw e (
              out
              ∙ append_assoc r.out _ _
              ∙ ap (λ l. r.out ++ l)
                  (sym (
                    slice_append r.size within first rest whole_first
                    ∙ ap
                        (λ k.
                          take (min k r.size) (drop within first)
                          ++ take (r.size - min k r.size) rest)
                        same))),
          rw e (size ∙ omega arith),
        )
  ]

  -- After a first sector the offset is 0.
  read_sectors-offset :
      (n s within : ℕ) (r : Reading) → r.offset ≡ 0 → (read_sectors d base n s within r).offset ≡ 0
  unfolding read_sectors read_sector
  read_sectors-offset zero s within r z = z
  read_sectors-offset (suc n) s within r z = elim (Bool-cases (ltb 0 r.size)) [
    | inr e ↦ rw e z
    | inl e ↦ rw e (read_sectors-offset n (s + 1) 0 (read_sector d (u32 (base + s)) within r) refl)
  ]

  read_sectors-offset_some :
      (n s within : ℕ) (r : Reading)
      → 0 < r.size
      → (read_sectors d base (suc n) s within r).offset ≡ 0
  unfolding read_sectors read_sector
  read_sectors-offset_some n s within r some_left =
      let e : ltb 0 r.size ≡ true = ground arith in
      rw e (read_sectors-offset n (s + 1) 0 (read_sector d (u32 (base + s)) within r) refl)

abbrev pub per_cluster : Volume → ℕ
per_cluster fs = fs.sectors_per_cluster * 512

module _ (fs : Volume) (d : Disk) (whole : IsDisk d) (small : fs.sectors_per_cluster < 256) where
  pub length-cluster_bytes : (c : ℕ) → length (cluster_bytes fs d c) ≡ per_cluster fs
  length-cluster_bytes c =
      length-sectors_bytes d whole (cluster_to_sector fs c) fs.sectors_per_cluster 0

  pub read_cluster_lem :
      (c : ℕ) (r : Reading)
      → r.offset < per_cluster fs
      → 0 < r.size
      → ((read_cluster fs d c r).out ≡ r.out ++ take r.size (drop r.offset (cluster_bytes fs d c)))
        × ((read_cluster fs d c r).size ≡ r.size - (per_cluster fs - r.offset))
        × ((read_cluster fs d c r).offset ≡ 0)
  unfolding read_cluster
  read_cluster_lem c r inside some_left =
      let first = r.offset / 512 in
      let within = r.offset % 512 in
      let base = cluster_to_sector fs c in
      let e : first % 256 ≡ first = omega arith in
      let split : first * 512 + within ≡ r.offset = omega arith in
      let n = fs.sectors_per_cluster - first in
      let (out, size) = read_sectors_lem d whole base n first within r (omega arith) in
      let one_more : suc (n - 1) ≡ n = omega arith in
      let zero_left : 0 + first ≡ first = omega arith in
      let place : drop within (sectors_bytes d base n first)
          ≡ drop r.offset (cluster_bytes fs d c) =
        ap (drop within) (
          ap (λ k. sectors_bytes d base n k) (sym zero_left)
          ∙ sym (drop-sectors_bytes d whole base first fs.sectors_per_cluster 0))
        ∙ sym (drop_add (first * 512) within (cluster_bytes fs d c))
        ∙ ap (λ k. drop k (cluster_bytes fs d c)) split in
      (
        rw e (out ∙ ap (λ l. r.out ++ take r.size l) place),
        rw e (size ∙ omega arith),
        rw (e, sym one_more)
            (read_sectors-offset_some d whole base (n - 1) first within r some_left),
      )
