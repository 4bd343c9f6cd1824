-- ===== src/Paging/Walk.antt =====
-- The processor's walk of the page tables, and what `map_page` does to it.
use sojebos.Common.{ℕ, zero, suc, ◌+◌, ◌*◌, ◌/◌, ◌%◌, ◌^◌, ◌<◌, ◌≤◌, ◌≡◌, ◌≢◌, refl, ◌∙◌}
use sojebos.Common.{true, false, inl, inr, ◌⊎◌, arith, ◌==◌, ==_iff, if◌then◌else◌}
use sojebos.Common.{none, some, length, get_or, set, Bool-cases}
use sojebos.Paging.{
  Paging, page_size, bitmap_size, alloc_frame, write_word, bitmap_test, slot, directory_entry, walk,
}

-- `n` words from an address set to 0
unfoldable pub clear_words : ℕ → ℕ → (ℕ → ℕ) → ℕ → ℕ
unfolding write_word
clear_words zero addr m = m
clear_words (suc n) addr m = clear_words n (addr + 4) (write_word addr 0 m)

abbrev pub write_entry : ℕ → ℕ → ℕ → ℕ → (ℕ → ℕ) → ℕ → ℕ
write_entry table vaddr paddr flags m =
    write_word (table + 4 * (vaddr / 2 ^ 12 % 1024)) (paddr / 4096 * 4096 + flags % 4096) m

-- `map_page` on physical memory, with each write where its address says
unfoldable pub mapped : ℕ → ℕ → ℕ → Paging → Paging
mapped paddr vaddr flags s =
    let entry = get_or s.directory (vaddr / 2 ^ 22) 0 in
    let r = alloc_frame s.frames in
    if entry % 2 == 1
    then record s { memory = write_entry (entry / 4096 * 4096) vaddr paddr flags s.memory }
    else if r.0 == 0
    then record s { frames = r.1 }
    else record {
      frames = r.1;
      directory = set s.directory (vaddr / 2 ^ 22) (r.0 + 7);
      memory = write_entry r.0 vaddr paddr flags (clear_words 1024 r.0 s.memory);
    }

-- `map_page` can reach a table: there is one, or a frame for a new one.
abbrev pub HasTable : Paging → ℕ → Type 0
HasTable s vaddr = (get_or s.directory (vaddr / 2 ^ 22) 0 % 2 ≡ 1) ⊎ ((alloc_frame s.frames).0 ≢ 0)

-- The tables of the directory are in frames of their own, all of them in use.
pub record IsSeparated (s : Paging) : Type 0 where
  pub frames_size : length s.frames ≡ bitmap_size
  pub directory_size : length s.directory ≡ 1024
  pub apart :
      (i j : ℕ)
      → i ≢ j
      → get_or s.directory i 0 % 2 ≡ 1
      → get_or s.directory j 0 % 2 ≡ 1
      → get_or s.directory i 0 / 4096 ≢ get_or s.directory j 0 / 4096
  pub in_use :
      (i : ℕ)
      → get_or s.directory i 0 % 2 ≡ 1
      → bitmap_test (get_or s.directory i 0 / 4096) s.frames ≡ true

pub write_word_self : (a v : ℕ) (m : ℕ → ℕ) → write_word a v m a ≡ v
unfolding write_word
write_word_self a v m = ground arith

pub write_word_ne : (a v : ℕ) (m : ℕ → ℕ) (q : ℕ) → q ≢ a → write_word a v m q ≡ m q
unfolding write_word
write_word_ne a v m q ne = ground arith

pub clear_words-outside :
    (n a : ℕ) (m : ℕ → ℕ) (q : ℕ) → (q < a) ⊎ (a + 4 * n ≤ q) → clear_words n a m q ≡ m q
unfolding clear_words
clear_words-outside zero a m q out = refl
clear_words-outside (suc n) a m q out =
    clear_words-outside n (a + 4) _ q (ground arith) ∙ write_word_ne a 0 m q (ground arith)

pub clear_words-inside : (n a k : ℕ) (m : ℕ → ℕ) → k < n → clear_words n a m (a + 4 * k) ≡ 0
unfolding clear_words
clear_words-inside zero a k m h = absurd (omega arith)
clear_words-inside (suc n) a zero m h =
    clear_words-outside n (a + 4) _ (a + 4 * 0) (inl (omega arith))
    ∙ (let z : a + 4 * 0 ≡ a = omega arith in rw z (write_word_self a 0 m))
clear_words-inside (suc n) a (suc k) m h =
    let e : a + 4 * suc k ≡ (a + 4) + 4 * k = omega arith in
    rw e (clear_words-inside n (a + 4) k _ (omega arith))

pub slot-inj :
    (a b x y : ℕ)
    → slot a x ≡ slot b y
    → (a / 4096 ≡ b / 4096) × (x / 2 ^ 12 % 1024 ≡ y / 2 ^ 12 % 1024)
slot-inj a b x y e = (omega arith, omega arith)

pub slot-frame :
    (t x i : ℕ) → t / 4096 ≢ i → (slot t x < i * page_size) ⊎ (i * page_size + 4 * 1024 ≤ slot t x)
slot-frame t x i ne = ground arith

pub walk-found :
    (s : Paging) (q t e : ℕ)
    → directory_entry s q ≡ t
    → t % 2 ≡ 1
    → s.memory (slot t q) ≡ e
    → e % 2 ≡ 1
    → walk s q ≡ some (e / 4096 * 4096 + q % 4096)
unfolding walk
walk-found s q t e dt tp me ep = rw (dt, tp, me, ep) refl

pub walk-agree :
    (s r : Paging) (q : ℕ)
    → directory_entry r q ≡ directory_entry s q
    → (directory_entry s q % 2 ≡ 1
        → r.memory (slot (directory_entry s q) q) ≡ s.memory (slot (directory_entry s q) q))
    → walk r q ≡ walk s q
unfolding walk
walk-agree s r q de me = elim (Bool-cases (directory_entry s q % 2 == 1)) [
  | inl e ↦ rw (de, e, me ((==_iff _ 1).0 e)) refl
  | inr e ↦ rw (de, e) refl
]

pub walk-no_table : (s : Paging) (q : ℕ) → directory_entry s q % 2 ≢ 1 → walk s q ≡ none
unfolding walk
walk-no_table s q no_bit =
    let e : (directory_entry s q % 2 == 1) ≡ false = ground arith in rw e refl

pub walk-empty :
    (s : Paging) (q t : ℕ) → directory_entry s q ≡ t → s.memory (slot t q) ≡ 0 → walk s q ≡ none
unfolding walk
walk-empty s q t dt me = elim (Bool-cases (t % 2 == 1)) [
  | inl e ↦ rw (dt, e, me) refl
  | inr e ↦ rw (dt, e) refl
]
