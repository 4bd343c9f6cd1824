-- ===== src/Paging/Identity.antt =====
-- `paging_init`: the first 16 MB are mapped to themselves.
use sojebos.Common.{
  ℕ, zero, suc, ◌+◌, ◌*◌, ◌/◌, ◌%◌, ◌^◌, ◌<◌, ◌≤◌, ◌≡◌, refl, ap, ◌∙◌, inl, inr, ◌⊎◌, arith, some,
  length, Bool-cases, ◌==◌, u32,
}
use sojebos.Paging.{Paging, page_size, write_word, identity_entries, identity_tables, paging_init}
use sojebos.Paging.Init.{directory-identity_tables, paging_init-tables}
use sojebos.Paging.{walk, slot}
use sojebos.Paging.Walk.{walk-found, IsSeparated, write_word_self, write_word_ne}

identity_entries-outside :
    (n entry address : ℕ) (m : ℕ → ℕ) (q : ℕ)
    → (q < entry) ⊎ (entry + 4 * n ≤ q)
    → identity_entries n entry address m q ≡ m q
unfolding identity_entries
identity_entries-outside zero entry address m q out = refl
identity_entries-outside (suc n) entry address m q out =
    identity_entries-outside n (entry + 4) _ _ q (omega arith)
    ∙ write_word_ne entry (address + 3) m q (omega arith)

identity_entries-inside :
    (n entry address : ℕ) (m : ℕ → ℕ) (k : ℕ)
    → k < n
    → address + n * page_size ≤ 2 ^ 30
    → identity_entries n entry address m (entry + 4 * k) ≡ address + k * page_size + 3
unfolding identity_entries
identity_entries-inside zero entry address m k lt fits = absurd (omega arith)
identity_entries-inside (suc n) entry address m zero lt fits =
    let here : entry + 4 * 0 ≡ entry = omega arith in
    identity_entries-outside n (entry + 4) _ _ (entry + 4 * 0) (inl (omega arith))
    ∙ ap (write_word entry (address + 3) m) here
    ∙ write_word_self entry (address + 3) m
    ∙ omega arith
identity_entries-inside (suc n) entry address m (suc k) lt fits =
    let there : entry + 4 * suc k ≡ entry + 4 + 4 * k = omega arith in
    let next : u32 (address + page_size) ≡ address + page_size = omega arith in
    ap (identity_entries n (entry + 4) (u32 (address + page_size)) _) there
    ∙ identity_entries-inside n (entry + 4) (u32 (address + page_size)) _ k (omega arith)
        (omega (arith, next))
    ∙ omega (arith, next)

module _ (tables : ℕ) where
  memory-identity_tables_before :
      (n i q : ℕ) (s : Paging)
      → q < tables + i * page_size
      → (identity_tables n i tables s).memory q ≡ s.memory q
  unfolding identity_tables
  memory-identity_tables_before zero i q s lt = refl
  memory-identity_tables_before (suc n) i q s lt =
      memory-identity_tables_before n (i + 1) q _ (omega arith)
      ∙ identity_entries-outside 1024 (tables + i * page_size) _ s.memory q (inl lt)

  -- Entry `k` of table `j`
  memory-identity_tables :
      (n i j k : ℕ) (s : Paging)
      → i ≤ j
      → j < i + n
      → i + n ≤ 4
      → k < 1024
      → (identity_tables n i tables s).memory (tables + j * page_size + 4 * k)
        ≡ j * 1024 * page_size + k * page_size + 3
  unfolding identity_tables
  memory-identity_tables zero i j k s from to few lt = absurd (omega arith)
  memory-identity_tables (suc n) i j k s from to few lt = elim (Bool-cases (j == i)) [
    | inl e ↦
        let same : j ≡ i = ground arith in
        rw same (
          memory-identity_tables_before n (i + 1) (tables + i * page_size + 4 * k) _ (omega arith)
          ∙ identity_entries-inside 1024 (tables + i * page_size) (i * 1024 * page_size) s.memory k
              lt (omega arith))
    | inr e ↦ memory-identity_tables n (i + 1) j k _ (ground arith) (omega arith) (omega arith) lt
  ]

  -- Table, slot and offset of an address below 16 MB
  walk-identity_tables :
      (q : ℕ) (s : Paging)
      → tables % 4096 ≡ 0
      → length s.directory ≡ 1024
      → q < 2 ^ 24
      → walk (identity_tables 4 0 tables s) q ≡ some q
  walk-identity_tables q s aligned size small =
      let after = identity_tables 4 0 tables s in
      let j = q / 2 ^ 22 in
      let k = q / 2 ^ 12 % 1024 in
      let table = tables + j * page_size + 7 in
      let place : slot table q ≡ tables + j * page_size + 4 * k = omega arith in
      let value : (j * 1024 * page_size + k * page_size + 3) / 4096 * 4096 + q % 4096 ≡ q =
        omega arith in
      walk-found after q table (j * 1024 * page_size + k * page_size + 3)
        (directory-identity_tables tables 4 0 j s (omega (arith, size)) (omega arith) (omega arith))
        (omega arith)
        (ap after.memory place
          ∙ memory-identity_tables 4 0 j k s (omega arith) (omega arith) (omega arith)
              (omega arith))
        (omega arith)
      ∙ ap some value

-- `paging_init` returns, and with the tables that it builds the processor goes from every address below
-- 16 MB to that address itself. The tables are in frames of their own, all in use. The four tables
-- are aligned and lie below the kernel's end, and that is within the memory that the bitmap counts.
pub walk-paging_init :
    (tables kernel_end : ℕ) (m : ℕ → ℕ) (q : ℕ)
    → tables % 4096 ≡ 0
    → tables + 4 * 4096 ≤ kernel_end
    → kernel_end ≤ 2 ^ 26
    → q < 2 ^ 24
    → (s : Paging) × (paging_init tables kernel_end m ≡ some s)
      × IsSeparated s
      × (walk s q ≡ some q)
walk-paging_init tables kernel_end m q aligned below small low =
    let (first, run, size, separated) =
      paging_init-tables tables kernel_end m aligned below small in
    (
      identity_tables 4 0 tables first,
      run,
      separated,
      walk-identity_tables tables q first aligned size low,
    )
