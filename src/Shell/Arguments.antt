-- ===== src/Shell/Arguments.antt =====
-- The arguments of a line are its words.
use mathlib.Core.List.{append_assoc}
use mathlib.Core.Path.{subst}
use sojebos.Common.{drop-length}
use sojebos.Common.{
  ℕ, zero, suc, ◌+◌, ◌≡◌, refl, sym, ap, ◌∙◌, inl, inr, true, Bool-cases, List, [], ◌∷◌, ◌++◌, All,
  ◌==◌, arith, length, length-append, get_or, set, drop, take, take-nil, map,
}
use sojebos.Shell.{skip_spaces, tokenize, arguments}
use sojebos.Shell.Rounds.{
  get_or-length, set-length, skip_spaces-gap, c_string-word, tokenize-end, found_at, line,
  word_start, word_end, split_end, length_end, drop-start, get_or-end, tokenize-word,
}
use sojebos.Shell.Words.{
  words, IsSpace, IsPlain, IsText, Behind, nothing, space, words-blank, gap_split,
}
use sojebos.Strings.{c_string}

tokenize_blank_at :
    (n : ℕ) (input : List ℕ) (ptr start : ℕ)
    → skip_spaces (drop ptr input) ptr ≡ start
    → get_or input start 0 ≡ 0
    → tokenize n input ptr ≡ (input, [])
unfolding tokenize
tokenize_blank_at zero input ptr start p z = refl
tokenize_blank_at (suc n) input ptr start p z =
    let f : (get_or input start 0 == 0) ≡ true = ground arith in
    elim (Bool-cases (get_or input ptr 0 == 0)) [ inl e ↦ rw e refl | inr e ↦ rw (p, e, f) refl ]

tokenize-blank :
    (n : ℕ) (pre s post : List ℕ)
    → All IsSpace s
    → tokenize n (pre ++ (s ++ 0 ∷ post)) (length pre) ≡ (pre ++ (s ++ 0 ∷ post), [])
tokenize-blank n pre s post h =
    let same : pre ++ (s ++ 0 ∷ post) ≡ (pre ++ s) ++ 0 ∷ post =
      sym (append_assoc pre s (0 ∷ post)) in
    let at_end : length pre + length s ≡ length (pre ++ s) = sym (length-append pre s) in
    let start =
      ap (λ l. skip_spaces l (length pre)) (drop-length pre (s ++ 0 ∷ post))
      ∙ skip_spaces-gap s post 0 (length pre) h (λ e. absurd (omega (arith, e))) in
    tokenize_blank_at n _ (length pre) (length pre + length s) start
      (rw (same, at_end) (get_or-length (pre ++ s) (0 ∷ post)))

-- What is found on a text behind `pre`, with room for `n` arguments: the text's first words, in a
-- buffer of the same length where the text may have changed.
abbrev Found : ℕ → List ℕ → List ℕ → List ℕ → List ℕ × List ℕ → Type 0
Found n pre s post r =
    (s' : List ℕ) × (length s' ≡ length s)
    × (r.0 ≡ pre ++ (s' ++ 0 ∷ post))
    × (map (λ p. c_string (drop p r.0)) r.1 ≡ take n (words s))

regroup :
    (pre gap w t rest : List ℕ)
    → pre ++ ((gap ++ (w ++ t)) ++ rest) ≡ pre ++ (gap ++ (w ++ (t ++ rest)))
regroup pre gap w t rest =
    ap (λ l. pre ++ l) (append_assoc gap (w ++ t) rest ∙ ap (λ l. gap ++ l) (append_assoc w t rest))

module _ (n : ℕ) (pre gap w post : List ℕ) (c : ℕ) (spaces : All IsSpace gap)
    (letters : All IsPlain (c ∷ w)) where
  -- The word at the end of the text
  last_word :
      words (gap ++ ((c ∷ w) ++ [])) ≡ (c ∷ w) ∷ words []
      → Found
          (suc n)
          pre
          (gap ++ ((c ∷ w) ++ []))
          post
          (tokenize (suc n) (line n pre gap w post c 0 spaces letters refl) (length pre))
  last_word eq =
      let here = line n pre gap w post c 0 spaces letters refl in
      let start = word_start n pre gap w post c 0 spaces letters refl in
      let end = word_end n pre gap w post c 0 spaces letters refl in
      let stop = tokenize-end n here end (get_or-end n pre gap w post c 0 spaces letters refl) in
      let run : tokenize (suc n) here (length pre) ≡ (here, start ∷ []) =
        tokenize-word n pre gap w post c 0 spaces letters refl ∙ ap (found_at start) stop in
      let word : c_string (drop start here) ≡ c ∷ w =
        ap c_string (drop-start n pre gap w post c 0 spaces letters refl)
        ∙ c_string-word (c ∷ w) post letters in
      let only : take (suc n) (words (gap ++ ((c ∷ w) ++ []))) ≡ (c ∷ w) ∷ [] =
        ap (take (suc n)) eq
        ∙ ap (λ l. (c ∷ w) ∷ l) (ap (take n) (words-blank [] tt) ∙ take-nil n) in
      subst (Found (suc n) pre (gap ++ ((c ∷ w) ++ [])) post) (sym run) (
        gap ++ ((c ∷ w) ++ []),
        refl,
        sym (regroup pre gap (c ∷ w) [] (0 ∷ post)),
        ap (λ x. x ∷ []) word ∙ sym only,
      )

  Found-cons :
      (t : List ℕ) (r : List ℕ × List ℕ)
      → words (gap ++ ((c ∷ w) ++ b' ' ∷ t)) ≡ (c ∷ w) ∷ words t
      → Found n (((pre ++ gap) ++ (c ∷ w)) ++ 0 ∷ []) t post r
      → Found (suc n) pre (gap ++ ((c ∷ w) ++ b' ' ∷ t)) post (found_at (length pre + length gap) r)
  Found-cons t r eq (s', len, buffer, strings) =
      let before = (pre ++ gap) ++ (c ∷ w) in
      let after = s' ++ 0 ∷ post in
      let here = line n pre gap w after c 0 spaces letters refl in
      let same : r.0 ≡ here =
        buffer
        ∙ append_assoc before (0 ∷ []) after
        ∙ sym (split_end n pre gap w after c 0 spaces letters refl) in
      let word : c_string (drop (length pre + length gap) r.0) ≡ c ∷ w =
        ap (λ l. c_string (drop (length pre + length gap) l)) same
        ∙ ap c_string (drop-start n pre gap w after c 0 spaces letters refl)
        ∙ c_string-word (c ∷ w) after letters in
      (
        gap ++ ((c ∷ w) ++ 0 ∷ s'),
        omega (
          arith,
          len,
          length-append gap ((c ∷ w) ++ 0 ∷ s'),
          length-append gap ((c ∷ w) ++ b' ' ∷ t),
          length-append w (0 ∷ s'),
          length-append w (b' ' ∷ t),
        ),
        same ∙ sym (regroup pre gap (c ∷ w) (0 ∷ s') (0 ∷ post)),
        rw (word, strings, eq) refl,
      )

  -- A word with a space behind it
  next_word :
      (t : List ℕ)
      → words (gap ++ ((c ∷ w) ++ b' ' ∷ t)) ≡ (c ∷ w) ∷ words t
      → ((pre' : List ℕ) → Found n pre' t post (tokenize n (pre' ++ (t ++ 0 ∷ post)) (length pre')))
      → Found (suc n) pre (gap ++ ((c ∷ w) ++ b' ' ∷ t)) post (
          tokenize
            (suc n)
            (line n pre gap w (t ++ 0 ∷ post) c b' ' spaces letters refl)
            (length pre))
  next_word t eq later =
      let rest = t ++ 0 ∷ post in
      let here = line n pre gap w rest c b' ' spaces letters refl in
      let start = word_start n pre gap w rest c b' ' spaces letters refl in
      let end = word_end n pre gap w rest c b' ' spaces letters refl in
      let before = (pre ++ gap) ++ (c ∷ w) in
      let pre' = before ++ 0 ∷ [] in
      let cut : set here end 0 ≡ pre' ++ rest =
        rw
          (
            split_end n pre gap w rest c b' ' spaces letters refl,
            length_end n pre gap w rest c b' ' spaces letters refl,
          )
          (set-length before rest b' ' 0 ∙ sym (append_assoc before (0 ∷ []) rest)) in
      let from : end + 1 ≡ length pre' = omega (
        arith,
        length_end n pre gap w rest c b' ' spaces letters refl,
        length-append before (0 ∷ []),
      ) in
      let run : tokenize (suc n) here (length pre)
          ≡ found_at start (tokenize n (pre' ++ rest) (length pre')) =
        tokenize-word n pre gap w rest c b' ' spaces letters refl
        ∙ ap (λ l. found_at start (tokenize n l (end + 1))) cut
        ∙ ap (λ k. found_at start (tokenize n (pre' ++ rest) k)) from in
      subst (Found (suc n) pre (gap ++ ((c ∷ w) ++ b' ' ∷ t)) post) (sym run)
        (Found-cons t (tokenize n (pre' ++ rest) (length pre')) eq (later pre'))

with_word :
    (n : ℕ) (pre gap w post : List ℕ) (c : ℕ) (spaces : All IsSpace gap)
    (letters : All IsPlain (c ∷ w)) (t t' : List ℕ)
    → Behind t t'
    → words (gap ++ ((c ∷ w) ++ t)) ≡ (c ∷ w) ∷ words t'
    → ((pre' : List ℕ) → Found n pre' t' post (tokenize n (pre' ++ (t' ++ 0 ∷ post)) (length pre')))
    → Found
        (suc n)
        pre
        (gap ++ ((c ∷ w) ++ t))
        post
        (tokenize (suc n) (pre ++ ((gap ++ ((c ∷ w) ++ t)) ++ 0 ∷ post)) (length pre))
with_word n pre gap w post c spaces letters t t' nothing eq later =
    subst (λ l. Found (suc n) pre (gap ++ ((c ∷ w) ++ [])) post (tokenize (suc n) l (length pre)))
      (sym (regroup pre gap (c ∷ w) [] (0 ∷ post))) (last_word n pre gap w post c spaces letters eq)
with_word n pre gap w post c spaces letters t t' (space u) eq later =
    subst
      (λ l. Found (suc n) pre (gap ++ ((c ∷ w) ++ b' ' ∷ u)) post (tokenize (suc n) l (length pre)))
      (sym (regroup pre gap (c ∷ w) (b' ' ∷ u) (0 ∷ post)))
      (next_word n pre gap w post c spaces letters u eq later)

tokenize-Found :
    (n : ℕ) (pre s post : List ℕ)
    → IsText s
    → Found n pre s post (tokenize n (pre ++ (s ++ 0 ∷ post)) (length pre))
tokenize-Found zero pre s post h = unfold tokenize in (s, refl, refl, refl)
tokenize-Found (suc n) pre s post h = elim (gap_split s h) [
  | inl blank ↦
      subst (Found (suc n) pre s post) (sym (tokenize-blank (suc n) pre s post blank))
        (s, refl, refl, rw (words-blank s blank) refl)
  | inr (gap, c, w, t, t', same, spaces, letters, behind, text, eq) ↦
      subst (λ l. Found (suc n) pre l post (tokenize (suc n) (pre ++ (l ++ 0 ∷ post)) (length pre)))
        (sym same)
        (with_word n pre gap w post c spaces letters t t' behind (rw same at eq)
          (λ pre'. tokenize-Found n pre' t' post text))
]

-- The arguments that the shell passes on are the line's first ten words. The line is a text in front of
-- its terminating zero; what stands in the buffer behind it does not matter.
pub arguments-words : (s post : List ℕ) → IsText s → arguments (s ++ 0 ∷ post) ≡ take 10 (words s)
unfolding arguments
arguments-words s post h = (tokenize-Found 10 [] s post h).3
