-- ===== src/Paging/User.antt =====
-- `paging_map_user_memory` where there is low memory for it: it ends without a page fault, and the kernel
-- keeps its own memory.
use sojebos.Common.{
  ℕ, zero, suc, ◌+◌, ◌-◌, ◌*◌, ◌/◌, ◌%◌, ◌^◌, ◌<◌, ◌≤◌, ◌≡◌, refl, ◌∙◌, true, false, get_or,
}
use sojebos.Common.{inl, inr, arith, ◌==◌, ltb, Option, some, List, Bool-cases, ==_iff, u32}
use sojebos.Common.{get_or-set_self, get_or-set_ne}
use mathlib.Core.Path.{subst}
use sojebos.Paging.{
  Paging, page_size, alloc_frame, directory_entry, walk, map_page, map_user_page, map_user_pages,
  paging_map_user_memory,
}
use sojebos.Paging.Alloc.{alloc_frame-Takes}
use sojebos.Paging.Map.{IsIdentity, next-IsApart, clear_next, map_page-mapped, HasLowTable}
use sojebos.Paging.Store.{IsApart, walk-clear_words}
use sojebos.Paging.Tables.{walk-mapped_ne, mapped-IsSeparated}
use sojebos.Paging.Walk.{IsSeparated, clear_words, mapped}

-- The next `n` frames that are given out lie in the first 16 MB, or there are fewer.
abbrev pub IsLow : ℕ → List ℕ → Type 0
IsLow zero bm = Unit
IsLow (suc n) bm = ((alloc_frame bm).0 < 2 ^ 24) × IsLow n (alloc_frame bm).1

-- The kernel can write its tables: they are in frames of their own in the first 16 MB, which are mapped
-- to themselves.
pub record IsKernelMap (s : Paging) : Type 0 where
  pub separated : IsSeparated s
  pub identity : IsIdentity s
  pub low : (j : ℕ) → get_or s.directory j 0 % 2 ≡ 1 → get_or s.directory j 0 / 4096 < 4096

frames-IsSeparated :
    (s : Paging) (m : ℕ → ℕ)
    → IsSeparated s
    → IsSeparated (record s { frames = (alloc_frame s.frames).1; memory = m })
frames-IsSeparated s m v = elim (alloc_frame-Takes s.frames v.frames_size) [
  | inl (i, lt, at, t) ↦ record {
    frames_size = t.same_size ∙ v.frames_size;
    directory_size = v.directory_size;
    apart = v.apart;
    in_use = λ j jp. elim (Bool-cases (get_or s.directory j 0 / 4096 == i)) [
      | inl e ↦ rw ((==_iff _ _).0 e) t.is_used
      | inr e ↦ t.others _ (λ k. ground arith) ∙ v.in_use j jp
    ];
  }
  | inr (gone, full) ↦
      let same : (alloc_frame s.frames).1 ≡ s.frames = rw gone refl in
      rw same (record {
        frames_size = v.frames_size;
        directory_size = v.directory_size;
        apart = v.apart;
        in_use = v.in_use;
      })
]

IsLow-less : (n : ℕ) (bm : List ℕ) → IsLow (suc n) bm → IsLow n bm
IsLow-less zero bm h = tt
IsLow-less (suc n) bm (first, rest) = (first, IsLow-less n (alloc_frame bm).1 rest)

-- A frame is given out and cleared.
cleared-IsKernelMap :
    (s : Paging) (i : ℕ)
    → IsKernelMap s
    → (alloc_frame s.frames).0 ≡ i * page_size
    → IsApart i s
    → IsKernelMap (record s {
      frames = (alloc_frame s.frames).1;
      memory = clear_words 1024 (alloc_frame s.frames).0 s.memory;
    })
unfolding walk
cleared-IsKernelMap s i k at apart = record {
  separated = frames-IsSeparated s _ k.separated;
  identity = λ q below.
      walk-clear_words s i 1024 (alloc_frame s.frames).0 q apart (omega (arith, at))
        (omega (arith, at))
      ∙ k.identity q below;
  low = k.low;
}

none_left-IsKernelMap :
    (s : Paging) → IsKernelMap s → IsKernelMap (record s { frames = (alloc_frame s.frames).1 })
unfolding walk
none_left-IsKernelMap s k = record {
  separated = frames-IsSeparated s s.memory k.separated;
  identity = k.identity;
  low = k.low;
}

module _ (paddr vaddr : ℕ) (above : 2 ^ 24 ≤ vaddr) (wide : vaddr < 2 ^ 32) where
  -- One more table is one more low one, and one frame is used at most.
  mapped-low :
      (s : Paging)
      → IsKernelMap s
      → (alloc_frame s.frames).0 < 2 ^ 24
      → (j : ℕ) → get_or (mapped paddr vaddr 7 s).directory j 0 % 2 ≡ 1
      → get_or (mapped paddr vaddr 7 s).directory j 0 / 4096 < 4096
  unfolding mapped
  mapped-low s k next j = elim (Bool-cases (directory_entry s vaddr % 2 == 1)) [
    | inl p ↦ rw p (k.low j)
    | inr p ↦ elim (Bool-cases ((alloc_frame s.frames).0 == 0)) [
      | inl z ↦ rw (p, z) (k.low j)
      | inr z ↦ elim (Bool-cases (j == vaddr / 2 ^ 22)) [
        | inl e ↦
            let same : j ≡ vaddr / 2 ^ 22 = (==_iff _ _).0 e in
            let inside : vaddr / 2 ^ 22 < 1024 = omega (arith, wide) in
            let listed =
              get_or-set_self s.directory (vaddr / 2 ^ 22) ((alloc_frame s.frames).0 + 7) 0
                (omega (arith, inside, k.separated.directory_size)) in
            let (i, at, apart) = next-IsApart s k.separated (λ d. ground arith) in
            rw (p, z, same, listed) (λ present. omega (arith, next, at))
        | inr e ↦
            let other =
              get_or-set_ne s.directory (vaddr / 2 ^ 22) j ((alloc_frame s.frames).0 + 7) 0
                (λ d. ground arith) in
            rw (p, z, other) (k.low j)
      ]
    ]
  ]

  mapped-frames :
      (s : Paging) (n : ℕ) → IsLow (suc n) s.frames → IsLow n (mapped paddr vaddr 7 s).frames
  unfolding mapped
  mapped-frames s n low = elim (Bool-cases (directory_entry s vaddr % 2 == 1)) [
    | inl p ↦ rw p (IsLow-less n s.frames low)
    | inr p ↦ elim (Bool-cases ((alloc_frame s.frames).0 == 0)) [
      | inl z ↦ rw (p, z) low.1
      | inr z ↦ rw (p, z) low.1
    ]
  ]

  map_page-IsKernelMap :
      (s : Paging) (n : ℕ)
      → IsKernelMap s
      → IsLow (suc n) s.frames
      → (t : Paging) × (map_page paddr vaddr 7 s ≡ some t) × IsKernelMap t × IsLow n t.frames
  map_page-IsKernelMap s n k low =
      let table : HasLowTable s vaddr = elim (Bool-cases (directory_entry s vaddr % 2 == 1)) [
        | inl p ↦ let present = (==_iff _ 1).0 p in inl (present, k.low (vaddr / 2 ^ 22) present)
        | inr p ↦ inr (λ d. ground arith, low.0)
      ] in
      (
        mapped paddr vaddr 7 s,
        map_page-mapped s k.separated k.identity paddr vaddr 7 table,
        record {
          separated = mapped-IsSeparated s k.separated paddr vaddr 7 wide;
          identity = λ q below.
              walk-mapped_ne s k.separated paddr vaddr 7 wide q (omega (arith, below))
                (λ d. absurd (omega (arith, below, above, d)))
              ∙ k.identity q below;
          low = mapped-low s k low.0;
        },
        mapped-frames s n low,
      )

map_user_page-IsKernelMap :
    (s : Paging) (n vaddr : ℕ)
    → 2 ^ 24 ≤ vaddr
    → vaddr < 2 ^ 32
    → IsKernelMap s
    → IsLow (suc (suc n)) s.frames
    → (t : Paging) × (map_user_page vaddr s ≡ some t) × IsKernelMap t × IsLow n t.frames
unfolding map_user_page
map_user_page-IsKernelMap s n vaddr above wide k low =
    let r = alloc_frame s.frames in
    elim (Bool-cases (r.0 == 0)) [
      | inl z ↦
          (record s { frames = r.1 }, rw z refl, none_left-IsKernelMap s k, IsLow-less n r.1 low.1)
      | inr z ↦
          let (i, at, apart) = next-IsApart s k.separated (λ d. ground arith) in
          let cleared = clear_next s i k.identity at low.0 apart in
          let (t, runs, kept, later) =
            map_page-IsKernelMap r.0 vaddr above wide _ n (cleared-IsKernelMap s i k at apart)
              low.1 in
          (t, rw (z, cleared) runs, kept, later)
    ]

one_round :
    (fuel vaddr next end : ℕ) (s s1 : Paging) {r : Option (Option Paging)}
    → ltb vaddr end ≡ true
    → map_user_page vaddr s ≡ some s1
    → u32 (vaddr + page_size) ≡ next
    → map_user_pages fuel next end s1 ≡ r
    → map_user_pages (suc fuel) vaddr end s ≡ r
unfolding map_user_pages
one_round fuel vaddr next end s s1 less one at rest = rw (less, one, at, map_user_pages) rest

map_user_pages-IsKernelMap :
    (fuel n vaddr end : ℕ) (s : Paging)
    → n ≤ fuel
    → 2 ^ 24 ≤ vaddr
    → end < 2 ^ 32
    → vaddr / 4096 * 4096 ≡ vaddr
    → end / 4096 * 4096 ≡ end
    → end ≤ vaddr + n * page_size
    → IsKernelMap s
    → IsLow (n + n) s.frames
    → (t : Paging) × (map_user_pages fuel vaddr end s ≡ some (some t)) × IsKernelMap t
unfolding map_user_pages
map_user_pages-IsKernelMap zero zero vaddr end s le above ew va ea enough k low =
    let stop : ltb vaddr end ≡ false = ground arith in (s, rw stop refl, k)
map_user_pages-IsKernelMap zero (suc n) vaddr end s le above ew va ea enough k low =
    absurd (omega (arith, le))
map_user_pages-IsKernelMap (suc fuel) zero vaddr end s le above ew va ea enough k low =
    let stop : ltb vaddr end ≡ false = ground arith in (s, rw stop refl, k)
map_user_pages-IsKernelMap (suc fuel) (suc n) vaddr end s le above ew va ea enough k low =
    elim (Bool-cases (ltb vaddr end)) [
      | inr e ↦ (s, rw e refl, k)
      | inl e ↦
          let less : vaddr < end = ground arith in
          let next : u32 (vaddr + page_size) ≡ vaddr + page_size = omega arith in
          let twice : suc n + suc n ≡ suc (suc (n + n)) = omega arith in
          let frames : IsLow (suc (suc (n + n))) s.frames =
            subst (λ m. IsLow m s.frames) twice low in
          let (s1, one, kept, later) =
            map_user_page-IsKernelMap s (n + n) vaddr above (omega arith) k frames in
          let (t, runs, kept') =
            map_user_pages-IsKernelMap fuel n (vaddr + page_size) end s1 (omega (arith, le))
              (omega (arith, above)) ew (omega (arith, va)) ea (omega (arith, enough)) kept later in
          (t, one_round fuel vaddr (vaddr + page_size) end s s1 e one next runs, kept')
    ]

-- `paging_map_user_memory`, for `n` pages above 16 MB that end below 2 ^ 32 and for which the next two
-- times `n` frames lie in the first 16 MB or there are fewer: it ends, without a page fault, and the
-- kernel can still write its tables, which are in frames of their own in the first 16 MB, mapped to
-- themselves.
pub paging_map_user_memory-IsKernelMap :
    (virtual_address size n : ℕ) (s : Paging)
    → 2 ^ 24 ≤ virtual_address
    → virtual_address + size + page_size ≤ 2 ^ 32
    → virtual_address % page_size + size ≤ n * page_size
    → n ≤ 2 ^ 20
    → IsKernelMap s
    → IsLow (n + n) s.frames
    → (t : Paging) × (paging_map_user_memory virtual_address size s ≡ some (some t)) × IsKernelMap t
unfolding paging_map_user_memory
paging_map_user_memory-IsKernelMap virtual_address size n s above below pages few k low =
    elim (Bool-cases (size == 0)) [
      | inl e ↦ rw e (s, refl, k)
      | inr e ↦
          let last : u32 (virtual_address + size + page_size - 1)
              ≡ virtual_address + size + page_size - 1 =
            omega (arith, below) in
          rw (e, last)
            (map_user_pages-IsKernelMap (2 ^ 20) n _ _ s few (omega (arith, above))
              (omega (arith, below)) (omega arith) (omega arith) (omega (arith, pages)) k low)
    ]
