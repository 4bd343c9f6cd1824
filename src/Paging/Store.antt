-- ===== src/Paging/Store.antt =====
-- What the kernel writes through the page tables, in the memory that they map to itself.
use sojebos.Common.{ℕ, zero, suc, ◌+◌, ◌*◌, ◌/◌, ◌%◌, ◌^◌, ◌≤◌, ◌≡◌, ◌≢◌, refl, sym, ap, ◌∙◌}
use sojebos.Common.{inl, inr, arith, ◌==◌, ==_iff, Bool-cases, Option-cases}
use sojebos.Common.{some, get_or}
use mathlib.Core.Option.{some_inj, none-ne-some}
use sojebos.Paging.{
  Paging, page_size, write_word, directory_entry, walk, store, clear_through, store_entry,
}
use sojebos.Paging.Walk.{
  clear_words, clear_words-outside, write_entry, walk-agree, walk-no_table, slot-frame,
}

-- A frame that holds no table of the directory
abbrev pub IsApart : ℕ → Paging → Type 0
IsApart i s = (j : ℕ) → get_or s.directory j 0 % 2 ≡ 1 → get_or s.directory j 0 / 4096 ≢ i

-- Words in such a frame do not change a walk.
pub walk-clear_words :
    (s : Paging) (i n a q : ℕ)
    → IsApart i s
    → i * page_size ≤ a
    → a + 4 * n ≤ i * page_size + page_size
    → walk (record s { memory = clear_words n a s.memory }) q ≡ walk s q
walk-clear_words s i n a q apart low high =
    walk-agree s (record s { memory = clear_words n a s.memory }) q refl
      (λ present.
        let out = slot-frame (directory_entry s q) q i (apart (q / 2 ^ 22) present) in
        clear_words-outside n a s.memory _ (ground arith))

pub store-identity :
    (s : Paging) (a v : ℕ)
    → walk s a ≡ some a
    → store a v s ≡ some (record s { memory = write_word a v s.memory })
unfolding store
store-identity s a v e = rw (e, store) refl

-- A frame that is mapped to itself and holds no table is cleared where it stands.
pub clear_through-identity :
    (n i a : ℕ) (s : Paging)
    → IsApart i s
    → i * page_size ≤ a
    → a + 4 * n ≤ i * page_size + page_size
    → ((q : ℕ) → q / 4096 ≡ i → walk s q ≡ some q)
    → clear_through n a s ≡ some (record s { memory = clear_words n a s.memory })
unfolding clear_through clear_words
clear_through-identity zero i a s apart low high same = refl
clear_through-identity (suc n) i a s apart low high same =
    let here = store-identity s a 0 (same a (omega arith)) in
    let s1 : Paging = record s { memory = write_word a 0 s.memory } in
    rw (here, clear_through)
      (clear_through-identity n i (a + 4) s1 apart (omega arith) (omega arith)
        (λ q at. walk-clear_words s i 1 a q apart low (omega arith) ∙ same q at))

pub store_entry-identity :
    (s : Paging) (table vaddr paddr flags : ℕ)
    → walk s (table + 4 * (vaddr / 2 ^ 12 % 1024)) ≡ some (table + 4 * (vaddr / 2 ^ 12 % 1024))
    → store_entry table vaddr paddr flags s
      ≡ some (record s { memory = write_entry table vaddr paddr flags s.memory })
unfolding store_entry
store_entry-identity s table vaddr paddr flags e = store-identity s _ _ e

-- An address that is mapped has a table.
pub walk-present : (s : Paging) (q : ℕ) {p : ℕ} → walk s q ≡ some p → directory_entry s q % 2 ≡ 1
walk-present s q e = elim (Bool-cases (directory_entry s q % 2 == 1)) [
  | inl t ↦ (==_iff _ 1).0 t
  | inr t ↦ absurd (none-ne-some _ (sym (walk-no_table s q (λ k. ground arith)) ∙ e))
]

-- A write leaves the directory and the bitmap.
abbrev pub IsKept : Paging → Paging → Type 0
IsKept s t = (t.frames ≡ s.frames) × (t.directory ≡ s.directory)

pub store-IsKept : (a v : ℕ) (s : Paging) {t : Paging} → store a v s ≡ some t → IsKept s t
unfolding store
store-IsKept a v s e = elim (Option-cases (walk s a)) [
  | inl w ↦ absurd (none-ne-some _ (rw (w, store) at e))
  | inr (p, w) ↦
      let same = some_inj.0 (rw (w, store) at e) in
      (ap (λ r. r.frames) (sym same), ap (λ r. r.directory) (sym same))
]

pub clear_through-IsKept :
    (n a : ℕ) (s : Paging) {t : Paging} → clear_through n a s ≡ some t → IsKept s t
unfolding clear_through
clear_through-IsKept zero a s e =
    let same = some_inj.0 e in (ap (λ r. r.frames) (sym same), ap (λ r. r.directory) (sym same))
clear_through-IsKept (suc n) a s e = elim (Option-cases (store a 0 s)) [
  | inl w ↦ absurd (none-ne-some _ (rw (w, clear_through) at e))
  | inr (s1, w) ↦
      let first = store-IsKept a 0 s w in
      let later = clear_through-IsKept n (a + 4) s1 (rw (w, clear_through) at e) in
      (later.0 ∙ first.0, later.1 ∙ first.1)
]
