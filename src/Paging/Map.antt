-- ===== src/Paging/Map.antt =====
-- `map_page` where the kernel's memory is mapped to itself: each write reaches the place it is meant for.
use sojebos.Common.{ℕ, ◌+◌, ◌*◌, ◌/◌, ◌%◌, ◌^◌, ◌<◌, ◌≡◌, ◌≢◌, refl, sym, ap, ◌∙◌}
use sojebos.Common.{true, false, inl, inr, ◌⊎◌, arith, ◌==◌, Bool-cases, Option-cases}
use sojebos.Common.{some, get_or, set, get_or-set_ne}
use mathlib.Core.Option.{some_inj, none-ne-some}
use sojebos.Paging.{
  Paging, page_size, alloc_frame, bitmap_test, directory_entry, walk, clear_through, store_entry,
  map_page,
}
use sojebos.Paging.Alloc.{alloc_frame-Takes}
use sojebos.Paging.Store.{
  IsApart, IsKept, walk-clear_words, clear_through-identity, store_entry-identity, walk-present,
  store-IsKept, clear_through-IsKept,
}
use sojebos.Paging.Tables.{walk-mapped, walk-mapped_ne, mapped-IsSeparated}
use sojebos.Paging.Walk.{HasTable, IsSeparated, clear_words, mapped, walk-agree}

-- The first 16 MB are mapped to themselves.
abbrev pub IsIdentity : Paging → Type 0
IsIdentity s = (q : ℕ) → q < 2 ^ 24 → walk s q ≡ some q

-- The table for an address lies in the first 16 MB, or the frame that a new one would be in.
abbrev pub HasLowTable : Paging → ℕ → Type 0
HasLowTable s vaddr =
    ((directory_entry s vaddr % 2 ≡ 1) × (directory_entry s vaddr / 4096 < 4096))
    ⊎ ((directory_entry s vaddr % 2 ≢ 1) × ((alloc_frame s.frames).0 < 2 ^ 24))

-- The next frame holds no table, and lies at a multiple of the page size.
pub next-IsApart :
    (s : Paging)
    → IsSeparated s
    → (alloc_frame s.frames).0 ≢ 0
    → (i : ℕ) × ((alloc_frame s.frames).0 ≡ i * page_size) × IsApart i s
next-IsApart s v some_frame = elim (alloc_frame-Takes s.frames v.frames_size) [
  | inl (i, lt, at, t) ↦ (
    i,
    at,
    λ j present k.
        let used = v.in_use j present in
        let free = t.was_free in
        let same : bitmap_test (get_or s.directory j 0 / 4096) s.frames ≡ bitmap_test i s.frames =
          rw k refl in
        ground arith,
  )
  | inr (gone, full) ↦ absurd (some_frame (rw gone refl))
]

-- The next frame is cleared where it stands.
pub clear_next :
    (s : Paging) (i : ℕ)
    → IsIdentity s
    → (alloc_frame s.frames).0 ≡ i * page_size
    → (alloc_frame s.frames).0 < 2 ^ 24
    → IsApart i s
    → clear_through 1024 (alloc_frame s.frames).0 (record s { frames = (alloc_frame s.frames).1 })
      ≡ some (record s {
        frames = (alloc_frame s.frames).1;
        memory = clear_words 1024 (alloc_frame s.frames).0 s.memory;
      })
unfolding walk
clear_next s i same at low apart =
    clear_through-identity 1024 i (alloc_frame s.frames).0
      (record s { frames = (alloc_frame s.frames).1 }) apart (omega (arith, at)) (omega (arith, at))
      (λ q page. same q (omega (arith, at, low, page)))

module _ (s : Paging) (v : IsSeparated s) (same : IsIdentity s) (paddr vaddr flags : ℕ) where
  new_table :
      (i : ℕ)
      → (alloc_frame s.frames).0 ≡ i * page_size
      → (alloc_frame s.frames).0 < 2 ^ 24
      → IsApart i s
      → directory_entry s vaddr % 2 ≢ 1
      → (let r = alloc_frame s.frames in
          let slot_at = r.0 + 4 * (vaddr / 2 ^ 12 % 1024) in
          walk
            (record {
              frames = r.1;
              directory = set s.directory (vaddr / 2 ^ 22) (r.0 + 7);
              memory = clear_words 1024 r.0 s.memory;
            })
            slot_at
          ≡ some slot_at)
  new_table i at low apart absent =
      let r = alloc_frame s.frames in
      let slot_at = r.0 + 4 * (vaddr / 2 ^ 12 % 1024) in
      let below : slot_at < 2 ^ 24 = omega (arith, at, low) in
      let before = same slot_at below in
      let other : vaddr / 2 ^ 22 ≢ slot_at / 2 ^ 22 =
        λ k. absent (ap (λ j. get_or s.directory j 0 % 2) k ∙ walk-present s slot_at before) in
      walk-agree (record s { memory = clear_words 1024 r.0 s.memory }) _ slot_at
        (get_or-set_ne s.directory (vaddr / 2 ^ 22) (slot_at / 2 ^ 22) (r.0 + 7) 0 other)
        (λ present. refl)
      ∙ walk-clear_words s i 1024 r.0 slot_at apart (omega (arith, at)) (omega (arith, at))
      ∙ before

  pub map_page-mapped :
      HasLowTable s vaddr → map_page paddr vaddr flags s ≡ some (mapped paddr vaddr flags s)
  unfolding map_page mapped
  map_page-mapped (inl (present, low)) =
      let e : (directory_entry s vaddr % 2 == 1) ≡ true = ground arith in
      rw e (store_entry-identity s _ vaddr paddr flags (same _ (omega (arith, low))))
  map_page-mapped (inr (absent, low)) =
      let e : (directory_entry s vaddr % 2 == 1) ≡ false = ground arith in
      elim (Bool-cases ((alloc_frame s.frames).0 == 0)) [
        | inl z ↦ rw (e, z) refl
        | inr z ↦
            let (i, at, apart) = next-IsApart s v (λ k. ground arith) in
            let cleared = clear_next s i same at low apart in
            rw (e, z, cleared)
              (store_entry-identity _ _ vaddr paddr flags (new_table i at low apart absent))
      ]

  module _ (wide : vaddr < 2 ^ 32) where
    -- Where the first 16 MB are mapped to themselves, and the table for the address is in them or gets a
    -- frame in them: `map_page` with the present flag returns, and every address of the page is then
    -- sent to its place in the physical page. The tables are in frames of their own.
    pub walk-map_page :
        (q : ℕ)
        → HasTable s vaddr
        → HasLowTable s vaddr
        → flags % 2 ≡ 1
        → q / 4096 ≡ vaddr / 4096
        → (t : Paging) × (map_page paddr vaddr flags s ≡ some t)
          × (walk t q ≡ some (paddr / 4096 * 4096 + q % 4096))
    walk-map_page q has low present page = (
      mapped paddr vaddr flags s,
      map_page-mapped low,
      walk-mapped s v paddr vaddr flags wide q has present page,
    )

    -- Where the first 16 MB are mapped to themselves, and the table for the address is in them or gets a
    -- frame in them, if there is one: `map_page` returns, and the walk of every address on another page is
    -- as it was. The tables are in frames of their own.
    pub walk-map_page_ne :
        HasLowTable s vaddr
        → (t : Paging) × (map_page paddr vaddr flags s ≡ some t)
          × ((q : ℕ) → q < 2 ^ 32 → q / 4096 ≢ vaddr / 4096 → walk t q ≡ walk s q)
    walk-map_page_ne low =
        (mapped paddr vaddr flags s, map_page-mapped low, walk-mapped_ne s v paddr vaddr flags wide)

module _ (paddr vaddr flags : ℕ) where
  -- The directory and the bitmap after `map_page`, wherever its writes go
  map_page-same :
      (s : Paging) {t : Paging}
      → map_page paddr vaddr flags s ≡ some t
      → IsKept (mapped paddr vaddr flags s) t
  unfolding map_page mapped store_entry
  map_page-same s e =
      let r = alloc_frame s.frames in
      elim (Bool-cases (directory_entry s vaddr % 2 == 1)) [
        | inl p ↦ rw p (store-IsKept _ _ s (rw (map_page, p) at e))
        | inr p ↦ elim (Bool-cases (r.0 == 0)) [
          | inl z ↦
              let same = some_inj.0 (rw (map_page, p, z) at e) in
              rw (p, z) (ap (λ u. u.frames) (sym same), ap (λ u. u.directory) (sym same))
          | inr z ↦ elim (Option-cases (clear_through 1024 r.0 (record s { frames = r.1 }))) [
            | inl c ↦ absurd (none-ne-some _ (rw (map_page, p, z, c) at e))
            | inr (s1, c) ↦
                let kept = clear_through-IsKept 1024 r.0 (record s { frames = r.1 }) c in
                let last = store-IsKept _ _ _ (rw (map_page, p, z, c) at e) in
                rw (p, z)
                  (last.0 ∙ kept.0, last.1 ∙ ap (λ d. set d (vaddr / 2 ^ 22) (r.0 + 7)) kept.1)
          ]
        ]
      ]

  pub IsKept-IsSeparated : (s t : Paging) → IsKept s t → IsSeparated s → IsSeparated t
  IsKept-IsSeparated s t (frames, directory) v = record {
    frames_size = rw frames v.frames_size;
    directory_size = rw directory v.directory_size;
    apart = rw directory v.apart;
    in_use = rw (frames, directory) v.in_use;
  }

  -- A `map_page` that does not end in a page fault keeps the tables in frames of their own, all of them
  -- in use.
  pub map_page-IsSeparated :
      (s : Paging) {t : Paging}
      → IsSeparated s
      → vaddr < 2 ^ 32
      → map_page paddr vaddr flags s ≡ some t
      → IsSeparated t
  map_page-IsSeparated s {t} v wide e =
      IsKept-IsSeparated (mapped paddr vaddr flags s) t (map_page-same s e)
        (mapped-IsSeparated s v paddr vaddr flags wide)
