-- ===== src/Paging/Init.antt =====
-- `paging_init`: the directory and the frames that it begins with.
use sojebos.Common.{
  ℕ, zero, suc, ◌+◌, ◌-◌, ◌*◌, ◌/◌, ◌%◌, ◌^◌, ◌<◌, ◌≤◌, ◌≡◌, ◌≢◌, refl, sym, ap, ◌∙◌, inl, inr, ◌⊎◌,
  arith, true, some, List, length, replicate, length-replicate, get_or, set, length-set,
  get_or-set_self, get_or-set_ne, Bool-cases, ◌==◌, leb, ltb, u32,
}
use sojebos.Paging.{
  Paging, page_size, bitmap_size, total_frames, bitmap_set, bitmap_test, reserve, identity_tables,
  paging_init,
}
use sojebos.Paging.Frames.{
  length-bitmap_set, bitmap_test-bitmap_set_self, bitmap_test-bitmap_set_ne,
}
use sojebos.Paging.Walk.{IsSeparated}

length-reserve : (n i : ℕ) (bm : List ℕ) → length (reserve n i bm) ≡ length bm
unfolding reserve
length-reserve zero i bm = refl
length-reserve (suc n) i bm = length-reserve n (i + 1) (bitmap_set i bm) ∙ length-bitmap_set i bm

-- A frame in use stays so.
bitmap_test-set_used :
    (i k : ℕ) (bm : List ℕ)
    → i / 32 < length bm
    → bitmap_test k bm ≡ true
    → bitmap_test k (bitmap_set i bm) ≡ true
bitmap_test-set_used i k bm lt used = elim (Bool-cases (k == i)) [
  | inl e ↦
      let same : k ≡ i = ground arith in
      ap (λ j. bitmap_test j (bitmap_set i bm)) same ∙ bitmap_test-bitmap_set_self i bm lt
  | inr e ↦ let other : k ≢ i = ground arith in bitmap_test-bitmap_set_ne i k bm lt other ∙ used
]

bitmap_test-reserve_used :
    (n i k : ℕ) (bm : List ℕ)
    → i + n ≤ length bm * 32
    → bitmap_test k bm ≡ true
    → bitmap_test k (reserve n i bm) ≡ true
unfolding reserve
bitmap_test-reserve_used zero i k bm le used = used
bitmap_test-reserve_used (suc n) i k bm le used =
    bitmap_test-reserve_used n (i + 1) k (bitmap_set i bm) (omega (arith, length-bitmap_set i bm))
      (bitmap_test-set_used i k bm (omega arith) used)

-- The frames from `i` on are in use.
bitmap_test-reserve :
    (n i k : ℕ) (bm : List ℕ)
    → i + n ≤ length bm * 32
    → i ≤ k
    → k < i + n
    → bitmap_test k (reserve n i bm) ≡ true
unfolding reserve
bitmap_test-reserve zero i k bm le from to = absurd (omega arith)
bitmap_test-reserve (suc n) i k bm le from to = elim (Bool-cases (k == i)) [
  | inl e ↦
      let same : i ≡ k = ground arith in
      let size = length-bitmap_set i bm in
      bitmap_test-reserve_used n (i + 1) k (bitmap_set i bm) (omega (arith, size)) (
        ap (λ j. bitmap_test k (bitmap_set j bm)) same
        ∙ bitmap_test-bitmap_set_self k bm (omega arith))
  | inr e ↦
      bitmap_test-reserve n (i + 1) k (bitmap_set i bm) (omega (arith, length-bitmap_set i bm))
        (ground arith) (omega arith)
]

-- The tables' entries, from number `i` on
module _ (tables : ℕ) where
  frames-identity_tables :
      (n i : ℕ) (s : Paging)
      → ((identity_tables n i tables s).frames ≡ s.frames)
        × (length (identity_tables n i tables s).directory ≡ length s.directory)
  unfolding identity_tables
  frames-identity_tables zero i s = (refl, refl)
  frames-identity_tables (suc n) i s =
      let (same, size) = frames-identity_tables n (i + 1) _ in
      (same, size ∙ length-set s.directory i (tables + i * page_size + 7))

  directory-identity_tables_ne :
      (n i j : ℕ) (s : Paging)
      → (j < i) ⊎ (i + n ≤ j)
      → get_or (identity_tables n i tables s).directory j 0 ≡ get_or s.directory j 0
  unfolding identity_tables
  directory-identity_tables_ne zero i j s out = refl
  directory-identity_tables_ne (suc n) i j s out =
      directory-identity_tables_ne n (i + 1) j _ (omega arith)
      ∙ get_or-set_ne s.directory i j (tables + i * page_size + 7) 0 (omega arith)

  pub directory-identity_tables :
      (n i j : ℕ) (s : Paging)
      → i + n ≤ length s.directory
      → i ≤ j
      → j < i + n
      → get_or (identity_tables n i tables s).directory j 0 ≡ tables + j * page_size + 7
  unfolding identity_tables
  directory-identity_tables zero i j s le from to = absurd (omega arith)
  directory-identity_tables (suc n) i j s le from to =
      let entry = tables + i * page_size + 7 in
      elim (Bool-cases (j == i)) [
        | inl e ↦
            let same : j ≡ i = ground arith in
            directory-identity_tables_ne n (i + 1) j _ (omega arith)
            ∙ ap (λ k. get_or (set s.directory i entry) k 0) same
            ∙ get_or-set_self s.directory i entry 0 (omega arith)
            ∙ ap (λ k. tables + k * page_size + 7) (sym same)
        | inr e ↦
            directory-identity_tables n (i + 1) j _ (omega (arith, length-set s.directory i entry))
              (ground arith) (omega arith)
      ]

empty_directory : (n j : ℕ) → get_or (replicate n 2) j 0 % 2 ≢ 1
empty_directory zero j e = absurd (omega (arith, e))
empty_directory (suc n) zero e = absurd (omega (arith, e))
empty_directory (suc n) (suc j) e = empty_directory n j e

module _ (tables reserved : ℕ) (s : Paging) (aligned : tables % 4096 ≡ 0)
    (below : tables / 4096 + 4 ≤ reserved) (frames_size : length s.frames ≡ bitmap_size)
    (directory_size : length s.directory ≡ 1024)
    (no_table : (j : ℕ) → get_or s.directory j 0 % 2 ≢ 1)
    (used : (k : ℕ) → k < reserved → bitmap_test k s.frames ≡ true) where
  abbrev mapped : Paging
  mapped = identity_tables 4 0 tables s

  present-entry :
      (j : ℕ)
      → get_or mapped.directory j 0 % 2 ≡ 1
      → (j < 4) × (get_or mapped.directory j 0 / 4096 ≡ tables / 4096 + j)
  present-entry j p = elim (Bool-cases (ltb j 4)) [
    | inl e ↦
        let entry =
          directory-identity_tables tables 4 0 j s (omega (arith, directory_size)) (omega arith)
            (ground arith) in
        (ground arith, omega (arith, entry))
    | inr e ↦
        let old = directory-identity_tables_ne tables 4 0 j s (inr (ground arith)) in
        absurd (no_table j (ap (λ k. k % 2) (sym old) ∙ p))
  ]

  identity_tables-IsSeparated : IsSeparated mapped
  identity_tables-IsSeparated =
      let (same, size) = frames-identity_tables tables 4 0 s in
      record {
        frames_size = ap (λ l. length l) same ∙ frames_size;
        directory_size = size ∙ directory_size;
        apart = λ i j ne ip jp. omega (arith, present-entry i ip, present-entry j jp);
        in_use = λ j p.
            let (few, at) = present-entry j p in
            ap (bitmap_test (get_or mapped.directory j 0 / 4096)) same
            ∙ ap (λ k. bitmap_test k s.frames) at
            ∙ used (tables / 4096 + j) (omega arith);
      }

-- The tables of `paging_init` are entered in an empty directory.
pub paging_init-tables :
    (tables kernel_end : ℕ) (m : ℕ → ℕ)
    → tables % 4096 ≡ 0
    → tables + 4 * 4096 ≤ kernel_end
    → kernel_end ≤ 2 ^ 26
    → (first : Paging) × (paging_init tables kernel_end m ≡ some (identity_tables 4 0 tables first))
      × (length first.directory ≡ 1024)
      × IsSeparated (identity_tables 4 0 tables first)
unfolding paging_init
paging_init-tables tables kernel_end m aligned below small =
    let reserved = u32 (kernel_end + page_size - 1) / page_size in
    let bm = replicate {A = ℕ} bitmap_size 0 in
    let first : Paging = record {
      frames = reserve reserved 0 bm;
      directory = replicate 1024 2;
      memory = m;
    } in
    let enough : leb reserved total_frames ≡ true = ground arith in
    let size = length-replicate {A = ℕ} bitmap_size 0 in
    let entries = length-replicate {A = ℕ} 1024 2 in
    (
      first,
      rw enough refl,
      entries,
      identity_tables-IsSeparated tables reserved first aligned (omega arith)
          (length-reserve reserved 0 bm ∙ size) entries (empty_directory 1024)
          (λ k lt.
            bitmap_test-reserve reserved 0 k bm (omega (arith, size)) (omega arith) (omega arith)),
    )
