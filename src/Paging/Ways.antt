-- ===== src/Paging/Ways.antt =====
-- The three ways of `mapped`: into a table, with a new table, and without a frame for one.
use sojebos.Common.{ℕ, ◌+◌, ◌*◌, ◌/◌, ◌%◌, ◌^◌, ◌<◌, ◌≡◌, ◌≢◌, refl}
use sojebos.Common.{inl, inr, ◌⊎◌, arith, ◌==◌, ==_iff}
use sojebos.Common.{List, set, Bool-cases}
use sojebos.Paging.{Paging, page_size, total_frames, alloc_frame, directory_entry}
use sojebos.Paging.Alloc.{Takes, alloc_frame-Takes}
use sojebos.Paging.Walk.{IsSeparated, clear_words, write_entry, mapped}

module _ (s : Paging) (v : IsSeparated s) (paddr vaddr flags : ℕ) (wide : vaddr < 2 ^ 32) where
  abbrev pub into_table : Paging
  into_table = record s {
    memory = write_entry (directory_entry s vaddr / 4096 * 4096) vaddr paddr flags s.memory;
  }

  abbrev pub into_new : ℕ → List ℕ → Paging
  into_new table frames = record {
    frames = frames;
    directory = set s.directory (vaddr / 2 ^ 22) (table + 7);
    memory = write_entry table vaddr paddr flags (clear_words 1024 table s.memory);
  }

  -- The three ways of `mapped`
  pub mapped-ways :
      ((directory_entry s vaddr % 2 ≡ 1) × (mapped paddr vaddr flags s ≡ into_table))
      ⊎ ((directory_entry s vaddr % 2 ≢ 1)
          × (((i : ℕ) × (i ≢ 0)
                × (i < total_frames)
                × ((alloc_frame s.frames).0 ≡ i * page_size)
                × Takes 0 i s.frames (alloc_frame s.frames).1
                × (mapped paddr vaddr flags s ≡ into_new (i * page_size) (alloc_frame s.frames).1))
              ⊎ (((alloc_frame s.frames).0 ≡ 0)
                  × (mapped paddr vaddr flags s ≡ record s { frames = (alloc_frame s.frames).1 }))))
  unfolding mapped
  mapped-ways = elim (Bool-cases (directory_entry s vaddr % 2 == 1)) [
    | inl e ↦ inl ((==_iff _ 1).0 e, rw e refl)
    | inr e ↦ inr (
      λ k. ground arith,
      elim (Bool-cases ((alloc_frame s.frames).0 == 0)) [
        | inl z ↦ inr ((==_iff _ 0).0 z, rw (e, z) refl)
        | inr z ↦ elim (alloc_frame-Takes s.frames v.frames_size) [
          | inr (gone, full) ↦
              let n : (alloc_frame s.frames).0 ≡ 0 = rw gone refl in absurd (ground arith)
          | inl (i, lt, at, t) ↦ inl (
            i,
            λ k. (let n : (alloc_frame s.frames).0 ≡ 0 = rw at (rw k refl) in ground arith),
            lt,
            at,
            t,
            rw (e, z, at) refl,
          )
        ]
      ],
    )
  ]
