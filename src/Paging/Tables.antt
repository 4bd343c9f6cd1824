-- ===== src/Paging/Tables.antt =====
-- `mapped` against the walk: the mapped page, the other pages, and the tables' frames.
use sojebos.Common.{ℕ, ◌+◌, ◌*◌, ◌/◌, ◌%◌, ◌^◌, ◌<◌, ◌≡◌, ◌≢◌, refl, sym, ◌∙◌}
use sojebos.Common.{true, false, inl, inr, ◌⊎◌, arith, ◌==◌, ==_iff}
use sojebos.Common.{some, List, get_or, set, Bool-cases}
use sojebos.Common.{length-set, get_or-set_self, get_or-set_ne}
use sojebos.Paging.{Paging, page_size, alloc_frame, bitmap_test, walk, slot, directory_entry}
use sojebos.Paging.Alloc.{Takes, alloc_frame-Takes}
use sojebos.Paging.Walk.{
  mapped, HasTable, IsSeparated, walk-found, walk-agree, walk-no_table, walk-empty, slot-inj,
  slot-frame, write_word_self, write_word_ne, clear_words-outside, clear_words-inside,
}
use sojebos.Paging.Ways.{into_table, into_new, mapped-ways}

module _ (s : Paging) (v : IsSeparated s) (paddr vaddr flags : ℕ) (wide : vaddr < 2 ^ 32) where
  -- After `mapped` with the present flag, if there is a table for the address or a frame for a new
  -- one, every address of the page is sent to its place in the physical page.
  pub walk-mapped :
      (q : ℕ)
      → HasTable s vaddr
      → flags % 2 ≡ 1
      → q / 4096 ≡ vaddr / 4096
      → walk (mapped paddr vaddr flags s) q ≡ some (paddr / 4096 * 4096 + q % 4096)
  walk-mapped q has present page =
      let new_entry = paddr / 4096 * 4096 + flags % 4096 in
      let same_table : q / 2 ^ 22 ≡ vaddr / 2 ^ 22 = omega arith in
      let same_slot : q / 2 ^ 12 ≡ vaddr / 2 ^ 12 = omega arith in
      let target : new_entry / 4096 * 4096 + q % 4096 ≡ paddr / 4096 * 4096 + q % 4096 =
        omega arith in
      elim (mapped-ways s v paddr vaddr flags wide) [
        | inl (tp, way) ↦
            let old = directory_entry s vaddr in
            rw way (
              walk-found (into_table s v paddr vaddr flags wide) q old new_entry
                (rw same_table refl) tp
                (rw same_slot (write_word_self (slot old vaddr) new_entry s.memory)) (omega arith)
              ∙ rw target refl)
        | inr (tp, inr (z, way)) ↦ absurd (ground arith)
        | inr (tp, inl (i, nz, lt, at, t, way)) ↦
            let table = i * page_size in
            let at_table : slot (table + 7) q ≡ table + 4 * (vaddr / 2 ^ 12 % 1024) = omega arith in
            let listed =
              get_or-set_self s.directory (vaddr / 2 ^ 22) (table + 7) 0
                (omega (arith, v.directory_size)) in
            rw way (
              walk-found ((into_new s v paddr vaddr flags wide) table (alloc_frame s.frames).1) q
                (table + 7) new_entry (rw same_table listed) (omega arith)
                (rw at_table (write_word_self (table + 4 * (vaddr / 2 ^ 12 % 1024)) new_entry _))
                (omega arith)
              ∙ rw target refl)
      ]

  -- Where the tables are in frames of their own, `mapped` leaves the walk of every address on
  -- another page as it is.
  pub walk-mapped_ne :
      (q : ℕ)
      → q < 2 ^ 32
      → q / 4096 ≢ vaddr / 4096
      → walk (mapped paddr vaddr flags s) q ≡ walk s q
  walk-mapped_ne q small other = elim (mapped-ways s v paddr vaddr flags wide) [
    | inl (tp, way) ↦ rw way (
        walk-agree s (into_table s v paddr vaddr flags wide) q refl (λ qp.
          write_word_ne _ _ s.memory _ (elim (Bool-cases (q / 2 ^ 22 == vaddr / 2 ^ 22)) [
            | inl c ↦ (λ k.
                let d = (==_iff _ _).0 c in
                let one : directory_entry s q ≡ directory_entry s vaddr = rw d refl in
                let e = slot-inj (directory_entry s q) (directory_entry s vaddr) q vaddr k in
                other (omega (arith, d, e)))
            | inr c ↦ (λ k.
                let far = v.apart (q / 2 ^ 22) (vaddr / 2 ^ 22) (λ d. ground arith) qp tp in
                far (slot-inj _ _ q vaddr k).0)
          ])))
    | inr (tp, inr (z, way)) ↦ rw way (walk-agree s _ q refl (λ qp. refl))
    | inr (tp, inl (i, nz, lt, at, t, way)) ↦
        let table = i * page_size in
        rw way (elim (Bool-cases (q / 2 ^ 22 == vaddr / 2 ^ 22)) [
          | inl c ↦
              let d : q / 2 ^ 22 ≡ vaddr / 2 ^ 22 = (==_iff _ _).0 c in
              let at_slot : slot (table + 7) q ≡ table + 4 * (q / 2 ^ 12 % 1024) = omega arith in
              let listed =
                get_or-set_self s.directory (vaddr / 2 ^ 22) (table + 7) 0
                  (omega (arith, v.directory_size)) in
              walk-empty ((into_new s v paddr vaddr flags wide) table (alloc_frame s.frames).1) q
                (table + 7) (rw d listed)
                (rw at_slot (
                  write_word_ne _ _ _ _ (λ k. other (omega (arith, d, k)))
                  ∙ clear_words-inside 1024 table (q / 2 ^ 12 % 1024) s.memory (omega arith)))
              ∙ sym (walk-no_table s q (λ k. tp (rw d at k)))
          | inr c ↦
              let apart : vaddr / 2 ^ 22 ≢ q / 2 ^ 22 = λ k. ground arith in
              walk-agree s ((into_new s v paddr vaddr flags wide) table (alloc_frame s.frames).1) q
                (get_or-set_ne s.directory (vaddr / 2 ^ 22) (q / 2 ^ 22) (table + 7) 0 apart)
                (λ qp.
                  let used = v.in_use (q / 2 ^ 22) qp in
                  let elsewhere : directory_entry s q / 4096 ≢ i = λ k.
                    let f : bitmap_test (directory_entry s q / 4096) s.frames ≡ false =
                      rw k t.was_free in
                    ground arith in
                  let out = slot-frame (directory_entry s q) q i elsewhere in
                  write_word_ne _ _ _ _ (λ k. ground (arith, out))
                  ∙ clear_words-outside 1024 table s.memory _ out)
        ])
  ]

  set-in_use :
      (i : ℕ) (after : List ℕ)
      → Takes 0 i s.frames after
      → (j : ℕ) → get_or s.directory j 0 % 2 ≡ 1
      → (get_or s.directory j 0 / 4096 ≢ i)
        × (bitmap_test (get_or s.directory j 0 / 4096) after ≡ true)
  set-in_use i after t j jp =
      let used = v.in_use j jp in
      let ne : get_or s.directory j 0 / 4096 ≢ i = λ k.
        let f : bitmap_test (get_or s.directory j 0 / 4096) s.frames ≡ false = rw k t.was_free in
        ground arith in
      (ne, t.others _ ne ∙ used)

  entry_after :
      (i j : ℕ)
      → ((get_or (set s.directory (vaddr / 2 ^ 22) (i * page_size + 7)) j 0 ≡ i * page_size + 7)
          × (j ≡ vaddr / 2 ^ 22))
        ⊎ ((get_or (set s.directory (vaddr / 2 ^ 22) (i * page_size + 7)) j 0
              ≡ get_or s.directory j 0)
            × (j ≢ vaddr / 2 ^ 22))
  entry_after i j = elim (Bool-cases (j == vaddr / 2 ^ 22)) [
    | inl e ↦
        let same = (==_iff j (vaddr / 2 ^ 22)).0 e in
        inl (
          rw same
              (get_or-set_self s.directory (vaddr / 2 ^ 22) _ 0 (omega (arith, v.directory_size))),
          same,
        )
    | inr e ↦
        inr
          (get_or-set_ne s.directory (vaddr / 2 ^ 22) j _ 0 (λ k. ground arith), λ k. ground arith)
  ]

  -- `mapped` keeps the tables in frames of their own, all of them in use.
  pub mapped-IsSeparated : IsSeparated (mapped paddr vaddr flags s)
  mapped-IsSeparated = elim (mapped-ways s v paddr vaddr flags wide) [
    | inl (tp, way) ↦ rw way (record {
      frames_size = v.frames_size;
      directory_size = v.directory_size;
      apart = v.apart;
      in_use = v.in_use;
    })
    | inr (tp, inr (z, way)) ↦ rw way (elim (alloc_frame-Takes s.frames v.frames_size) [
      | inl (i, lt, at, t) ↦ record {
        frames_size = t.same_size ∙ v.frames_size;
        directory_size = v.directory_size;
        apart = v.apart;
        in_use = λ j jp. (set-in_use i _ t j jp).1;
      }
      | inr (gone, full) ↦
          let same : (alloc_frame s.frames).1 ≡ s.frames = rw gone refl in
          rw same (record {
            frames_size = v.frames_size;
            directory_size = v.directory_size;
            apart = v.apart;
            in_use = v.in_use;
          })
    ])
    | inr (tp, inl (i, nz, lt, at, t, way)) ↦ rw way (record {
      frames_size = t.same_size ∙ v.frames_size;
      directory_size = length-set s.directory _ _ ∙ v.directory_size;
      apart = λ j k ne jp kp. elim (entry_after i j) [
        | inl (je, jn) ↦ elim (entry_after i k) [
          | inl (ke, kn) ↦ absurd (ne (jn ∙ sym kn))
          | inr (ke, kn) ↦
              λ e. (set-in_use i _ t k (omega (arith, ke, kp))).0 (omega (arith, e, je, ke))
        ]
        | inr (je, jn) ↦ elim (entry_after i k) [
          | inl (ke, kn) ↦
              λ e. (set-in_use i _ t j (omega (arith, je, jp))).0 (omega (arith, e, je, ke))
          | inr (ke, kn) ↦ λ e.
              v.apart j k ne (omega (arith, je, jp)) (omega (arith, ke, kp))
                (omega (arith, e, je, ke))
        ]
      ];
      in_use = λ j jp. elim (entry_after i j) [
        | inl (je, jn) ↦
            let frame : get_or (set s.directory (vaddr / 2 ^ 22) (i * page_size + 7)) j 0 / 4096
                ≡ i =
              omega (arith, je) in
            rw frame t.is_used
        | inr (je, jn) ↦ rw je (set-in_use i _ t j (omega (arith, je, jp))).1
      ];
    })
  ]
