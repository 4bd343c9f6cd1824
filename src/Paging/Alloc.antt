-- ===== src/Paging/Alloc.antt =====
-- `alloc_frame` and `free_frame` on the set of frames in use.
use sojebos.Common.{ℕ, zero, suc, ◌+◌, ◌*◌, ◌/◌, ◌<◌, ◌≤◌, ◌≡◌, ◌≢◌, refl, sym, ◌∙◌}
use sojebos.Common.{true, false, inl, inr, ◌⊎◌, arith, ltb, ◌==◌, ==_iff}
use sojebos.Common.{some, List, length, Bool-cases, lt→ltb}
use sojebos.Paging.{
  page_size, total_frames, bitmap_size, bitmap_clear, bitmap_test, alloc_from, alloc_frame,
  free_frame,
}
use sojebos.Paging.Frames.{
  length-bitmap_set, bitmap_test-bitmap_set_self, bitmap_test-bitmap_set_ne,
  bitmap_test-bitmap_clear_self, bitmap_test-bitmap_clear_ne,
}

-- Frame `i` was the lowest free one, and is the only one that `after` counts as used besides.
pub record Takes (low i : ℕ) (bm after : List ℕ) : Type 0 where
  pub was_free : bitmap_test i bm ≡ false
  pub lowest : (j : ℕ) → low ≤ j → j < i → bitmap_test j bm ≡ true
  pub is_used : bitmap_test i after ≡ true
  pub others : (j : ℕ) → j ≢ i → bitmap_test j after ≡ bitmap_test j bm
  pub same_size : length after ≡ length bm

alloc_from-Takes :
    (n low : ℕ) (bm : List ℕ)
    → length bm ≡ bitmap_size
    → low + n ≤ total_frames
    → ((i : ℕ) × (low ≤ i)
        × (i < low + n)
        × ((alloc_from n low bm).0 ≡ i * page_size)
        × Takes low i bm (alloc_from n low bm).1)
      ⊎ ((alloc_from n low bm ≡ (0, bm))
          × ((j : ℕ) → low ≤ j → j < low + n → bitmap_test j bm ≡ true))
unfolding alloc_from
alloc_from-Takes zero low bm h le = inr (refl, λ j ge lt. absurd (omega arith))
alloc_from-Takes (suc n) low bm h le = elim (Bool-cases (bitmap_test low bm)) [
  | inl e ↦ rw e (elim (alloc_from-Takes n (low + 1) bm h (omega arith)) [
    | inl (i, ge, lt, at, t) ↦ inl (
      i,
      omega arith,
      omega arith,
      at,
      record {
        was_free = t.was_free;
        lowest = λ j lj ji. elim (Bool-cases (j == low)) [
          | inl s ↦ rw ((==_iff j low).0 s) e
          | inr s ↦ t.lowest j (ground arith) ji
        ];
        is_used = t.is_used;
        others = t.others;
        same_size = t.same_size;
      },
    )
    | inr (gone, full) ↦ inr (
      gone,
      λ j lj ji. elim (Bool-cases (j == low)) [
        | inl s ↦ rw ((==_iff j low).0 s) e
        | inr s ↦ full j (ground arith) (omega arith)
      ],
    )
  ])
  | inr e ↦
      let room : low / 32 < length bm = omega arith in
      rw e (
        inl (
          low,
          omega arith,
          omega arith,
          refl,
          record {
            was_free = e;
            lowest = λ j lj ji. absurd (omega arith);
            is_used = bitmap_test-bitmap_set_self low bm room;
            others = λ j ne. bitmap_test-bitmap_set_ne low j bm room ne;
            same_size = length-bitmap_set low bm;
          },
        ))
]

-- On a bitmap of the right size, `alloc_frame` takes the lowest free frame, returns its address
-- and marks no other; when every frame is used it returns NULL and changes nothing.
pub alloc_frame-Takes :
    (bm : List ℕ)
    → length bm ≡ bitmap_size
    → ((i : ℕ) × (i < total_frames)
        × ((alloc_frame bm).0 ≡ i * page_size)
        × Takes 0 i bm (alloc_frame bm).1)
      ⊎ ((alloc_frame bm ≡ (0, bm)) × ((j : ℕ) → j < total_frames → bitmap_test j bm ≡ true))
unfolding alloc_frame
alloc_frame-Takes bm h = elim (alloc_from-Takes total_frames 0 bm h (omega arith)) [
  | inl (i, ge, lt, at, t) ↦ inl (i, lt, at, t)
  | inr (gone, full) ↦ inr (gone, λ j lt. full j (omega arith) lt)
]

-- A frame that `alloc_frame` returned, other than frame 0, can be freed, and then exactly the
-- frames that were in use before are in use.
pub free_frame-alloc_frame :
    (bm : List ℕ)
    → length bm ≡ bitmap_size
    → (alloc_frame bm).0 ≢ 0
    → (after : List ℕ) × (free_frame (alloc_frame bm).0 (alloc_frame bm).1 ≡ some after)
      × ((j : ℕ) → bitmap_test j after ≡ bitmap_test j bm)
unfolding free_frame
free_frame-alloc_frame bm h nn = elim (alloc_frame-Takes bm h) [
  | inr (gone, full) ↦ absurd (nn (rw gone refl))
  | inl (i, lt, at, t) ↦
      let room : i / 32 < length (alloc_frame bm).1 = omega (arith, t.same_size) in
      let div : i * page_size / page_size ≡ i = omega arith in
      let fits : ltb (i / 32) bitmap_size ≡ true = lt→ltb _ _ (omega arith) in
      (
        bitmap_clear i (alloc_frame bm).1,
        rw (at, div, fits) refl,
        λ j. elim (Bool-cases (j == i)) [
          | inl s ↦ rw ((==_iff j i).0 s) (bitmap_test-bitmap_clear_self i _ room ∙ sym t.was_free)
          | inr s ↦
              bitmap_test-bitmap_clear_ne i j _ room (λ e. ground arith)
              ∙ t.others j (λ e. ground arith)
        ],
      )
]
