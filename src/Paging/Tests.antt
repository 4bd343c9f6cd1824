-- ===== src/Paging/Tests.antt =====
-- Examples: a directory with no table, and a bitmap with frame 0 in use.
use sojebos.Common.{
  ℕ, zero, suc, ◌+◌, ◌-◌, ◌*◌, ◌/◌, ◌%◌, ◌^◌, ap, ◌∷◌, ◌<◌, ◌≤◌, ◌≡◌, ◌≢◌, ltb, ◌==◌, ==_iff,
  Bool-cases, refl, sym, ◌∙◌, true, false, inl, inr, ◌⊎◌, arith,
}
use sojebos.Common.{List, length, replicate, length-replicate, get_or, some}
use sojebos.Paging.{
  Paging, page_size, bitmap_size, total_frames, bitmap_set, bitmap_test, alloc_frame, map_page,
  paging_map_user_memory,
}
use sojebos.Paging.Frames.{
  length-bitmap_set, bitmap_test-bitmap_set_self, bitmap_test-bitmap_set_ne,
}
use sojebos.Paging.Alloc.{Takes, alloc_frame-Takes}
use sojebos.Paging.{walk}
use sojebos.Paging.Walk.{IsSeparated, mapped, walk-found}
use sojebos.Paging.Map.{
  IsIdentity, map_page-mapped, walk-map_page, walk-map_page_ne, map_page-IsSeparated,
}
use sojebos.Paging.{paging_init}
use sojebos.Paging.Identity.{walk-paging_init}
use sojebos.Paging.User.{IsKernelMap, IsLow, paging_map_user_memory-IsKernelMap}

abbrev frames : List ℕ
frames = bitmap_set 0 (replicate 512 0)

abbrev fresh : Paging
fresh = record { frames = frames; directory = replicate 1024 2; memory = λ q. 0 }

frames-length : length frames ≡ 512
frames-length = length-bitmap_set 0 (replicate 512 0) ∙ length-replicate {A = ℕ} 512 0

no_table : (n i : ℕ) → get_or (replicate n 2) i 0 % 2 ≢ 1
no_table zero i e = absurd (omega (arith, e))
no_table (suc n) zero e = absurd (omega (arith, e))
no_table (suc n) (suc i) e = no_table n i e

fresh-IsSeparated : IsSeparated fresh
fresh-IsSeparated = record {
  frames_size = frames-length;
  directory_size = length-replicate {A = ℕ} 1024 2;
  apart = λ i j ne ip jp. absurd (no_table 1024 i ip);
  in_use = λ i ip. absurd (no_table 1024 i ip);
}

second_frame :
    (bm : List ℕ)
    → length bm ≡ bitmap_size
    → bitmap_test 0 bm ≡ true
    → bitmap_test 1 bm ≡ false
    → (alloc_frame bm).0 ≢ 0
second_frame bm h used free z = elim (alloc_frame-Takes bm h) [
  | inl (i, lt, at, t) ↦
      let first : i ≡ 0 = omega (arith, z, at) in
      let f : bitmap_test 0 bm ≡ false = rw (sym first) t.was_free in ground arith
  | inr (gone, full) ↦ let u = full 1 (omega arith) in ground arith
]

first_used : (bm : List ℕ) → 0 < length bm → bitmap_test 0 (bitmap_set 0 bm) ≡ true
first_used bm h = bitmap_test-bitmap_set_self 0 bm (omega (arith, h))

second_free :
    (bm : List ℕ)
    → 0 < length bm
    → bitmap_test 1 bm ≡ false
    → bitmap_test 1 (bitmap_set 0 bm) ≡ false
second_free bm h e =
    bitmap_test-bitmap_set_ne 0 1 bm (omega (arith, h)) (λ k. absurd (omega (arith, k))) ∙ e

all_free : bitmap_test 1 (replicate 512 0) ≡ false
unfolding bitmap_test
all_free = refl

some_words : 0 < length (replicate {A = ℕ} 512 0)
some_words = omega (arith, length-replicate {A = ℕ} 512 0)

one_frame : (alloc_frame frames).0 ≢ 0
one_frame =
    second_frame frames frames-length (first_used (replicate 512 0) some_words)
      (second_free (replicate 512 0) some_words all_free)

alloc_frame-Takes_example :
    ((i : ℕ) × (i < total_frames)
      × ((alloc_frame frames).0 ≡ i * page_size)
      × Takes 0 i frames (alloc_frame frames).1)
    ⊎ ((alloc_frame frames ≡ (0, frames))
        × ((j : ℕ) → j < total_frames → bitmap_test j frames ≡ true))
alloc_frame-Takes_example = alloc_frame-Takes frames frames-length

-- The map of the first 16 MB, with its four tables in the frames 1 to 4
abbrev low_map : Paging
low_map = record {
  frames = 31 ∷ replicate 511 0;
  directory = 4103 ∷ 8199 ∷ 12295 ∷ 16391 ∷ replicate 1020 2;
  memory = λ q. (q - 4096) / 4 * 4096 + 3;
}

low_table :
    (j : ℕ)
    → get_or low_map.directory j 0 % 2 ≡ 1
    → (j < 4) × (get_or low_map.directory j 0 ≡ (j + 1) * 4096 + 7)
low_table zero e = (omega arith, refl)
low_table (suc zero) e = (omega arith, refl)
low_table (suc (suc zero)) e = (omega arith, refl)
low_table (suc (suc (suc zero))) e = (omega arith, refl)
low_table (suc (suc (suc (suc j)))) e = absurd (no_table 1020 j e)

low_entry : (j : ℕ) → j < 4 → get_or low_map.directory j 0 ≡ (j + 1) * 4096 + 7
low_entry zero h = refl
low_entry (suc zero) h = refl
low_entry (suc (suc zero)) h = refl
low_entry (suc (suc (suc zero))) h = refl
low_entry (suc (suc (suc (suc j)))) h = absurd (omega arith)

low_used : (j : ℕ) → j < 4 → bitmap_test (j + 1) low_map.frames ≡ true
unfolding bitmap_test
low_used zero h = refl
low_used (suc zero) h = refl
low_used (suc (suc zero)) h = refl
low_used (suc (suc (suc zero))) h = refl
low_used (suc (suc (suc (suc j)))) h = absurd (omega arith)

low_length : length low_map.frames ≡ 512
low_length = omega (arith, length-replicate {A = ℕ} 511 0)

low_map-IsSeparated : IsSeparated low_map
low_map-IsSeparated = record {
  frames_size = low_length;
  directory_size = omega (arith, length-replicate {A = ℕ} 1020 2);
  apart = λ i j ne ip jp k. ne (omega (arith, k, (low_table i ip).1, (low_table j jp).1));
  in_use = λ i ip.
      let (less, entry) = low_table i ip in
      let frame : get_or low_map.directory i 0 / 4096 ≡ i + 1 = omega (arith, entry) in
      rw frame (low_used i less);
}

low_map-IsIdentity : IsIdentity low_map
low_map-IsIdentity q below =
    let entry = low_entry (q / 2 ^ 22) (omega (arith, below)) in
    walk-found low_map q ((q / 2 ^ 22 + 1) * 4096 + 7) (q / 4096 * 4096 + 3) entry (omega arith)
      (omega (arith, below)) (omega arith)
    ∙ ap some (omega arith)

low_map-IsKernelMap : IsKernelMap low_map
low_map-IsKernelMap = record {
  separated = low_map-IsSeparated;
  identity = low_map-IsIdentity;
  low = λ j present. (let (less, entry) = low_table j present in omega (arith, less, entry));
}

-- Where a frame below 4096 is free, the next one lies below 16 MB.
next_low :
    (bm : List ℕ) (j : ℕ)
    → length bm ≡ 512
    → bitmap_test j bm ≡ false
    → j < 4096
    → (alloc_frame bm).0 < 2 ^ 24
next_low bm j size free small = elim (alloc_frame-Takes bm size) [
  | inr (gone, full) ↦ let u = full j (omega (arith, small)) in ground arith
  | inl (i, lt, at, t) ↦ elim (Bool-cases (ltb j i)) [
    | inl e ↦ let u = t.lowest j (omega arith) (ground arith) in ground arith
    | inr e ↦ let le : i ≤ j = ground arith in omega (arith, at, le, small)
  ]
]

two_frames :
    (bm : List ℕ) (j k : ℕ)
    → length bm ≡ 512
    → j ≢ k
    → bitmap_test j bm ≡ false
    → bitmap_test k bm ≡ false
    → j < 4096
    → k < 4096
    → IsLow 2 bm
two_frames bm j k size other free_j free_k small_j small_k = elim (alloc_frame-Takes bm size) [
  | inr (gone, full) ↦
      let u = full j (omega (arith, small_j)) in absurd (let f = free_j in ground arith)
  | inl (i, lt, at, t) ↦ elim (Bool-cases (i == j)) [
    | inl e ↦
        let same : i ≡ j = (==_iff _ _).0 e in
        (
          next_low bm j size free_j small_j,
          (
            next_low _ k (t.same_size ∙ size)
                (t.others k (λ d. absurd (other (sym (d ∙ same)))) ∙ free_k) small_k,
            tt,
          ),
        )
    | inr e ↦ (
      next_low bm j size free_j small_j,
      (next_low _ j (t.same_size ∙ size) (t.others j (λ d. ground arith) ∙ free_j) small_j, tt),
    )
  ]
]

low_free : (bitmap_test 5 low_map.frames ≡ false) × (bitmap_test 6 low_map.frames ≡ false)
unfolding bitmap_test
low_free = (refl, refl)

paging_map_user_memory-IsKernelMap_example :
    (t : Paging) × (paging_map_user_memory 0x40000010 100 low_map ≡ some (some t)) × IsKernelMap t
paging_map_user_memory-IsKernelMap_example =
    paging_map_user_memory-IsKernelMap 0x40000010 100 1 low_map (omega arith) (omega arith)
      (omega arith) (omega arith) low_map-IsKernelMap
      (two_frames low_map.frames 5 6 low_length (λ d. absurd (omega (arith, d))) low_free.0
        low_free.1 (omega arith) (omega arith))

walk-map_page_example :
    (t : Paging) × (map_page 0x2000000 0x400123 7 low_map ≡ some t)
    × (walk t 0x400456 ≡ some 0x2000456)
walk-map_page_example =
    walk-map_page low_map low_map-IsSeparated low_map-IsIdentity 0x2000000 0x400123 7 (omega arith)
      0x400456 (inl refl) (inl (refl, omega arith)) refl refl

walk-map_page_ne_example :
    (t : Paging) × (map_page 0x2000000 0x400123 7 low_map ≡ some t)
    × ((q : ℕ) → q < 2 ^ 32 → q / 4096 ≢ 0x400123 / 4096 → walk t q ≡ walk low_map q)
walk-map_page_ne_example =
    walk-map_page_ne low_map low_map-IsSeparated low_map-IsIdentity 0x2000000 0x400123 7
      (omega arith) (inl (refl, omega arith))

map_page-IsSeparated_example : IsSeparated (mapped 0x2000000 0x400123 7 low_map)
map_page-IsSeparated_example =
    map_page-IsSeparated 0x2000000 0x400123 7 low_map low_map-IsSeparated (omega arith) (
      map_page-mapped low_map low_map-IsSeparated low_map-IsIdentity 0x2000000 0x400123 7
        (inl (refl, omega arith)))

walk-paging_init_example :
    (s : Paging) × (paging_init 0x100000 0x500000 (λ q. 0) ≡ some s)
    × IsSeparated s
    × (walk s 0xb8000 ≡ some 0xb8000)
walk-paging_init_example =
    walk-paging_init 0x100000 0x500000 (λ q. 0) 0xb8000 refl (omega arith) (omega arith)
      (omega arith)
