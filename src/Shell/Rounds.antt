-- ===== src/Shell/Rounds.antt =====
-- One round of the shell's loop over a line.
use mathlib.Core.List.{append_assoc}
use sojebos.Common.{drop-length}
use sojebos.Common.{
  ℕ, zero, suc, ◌+◌, ◌≡◌, ◌≢◌, refl, sym, ap, ◌∙◌, true, false, ◌||◌, List, [], ◌∷◌, ◌++◌, All,
  ◌==◌, if◌then◌else◌, arith, length, length-append, get_or, set, drop,
}
use sojebos.Shell.{skip_spaces, find_end, tokenize}
use sojebos.Shell.Words.{IsSpace, IsPlain}
use sojebos.Strings.{c_string}

pub get_or-length : (xs ys : List ℕ) → get_or (xs ++ ys) (length xs) 0 ≡ get_or ys 0 0
get_or-length [] ys = refl
get_or-length (x ∷ xs) ys = get_or-length xs ys

pub set-length : (xs ys : List ℕ) (c v : ℕ) → set (xs ++ c ∷ ys) (length xs) v ≡ xs ++ v ∷ ys
set-length [] ys c v = refl
set-length (x ∷ xs) ys c v = ap (λ l. x ∷ l) (set-length xs ys c v)

pub skip_spaces-gap :
    (gap rest : List ℕ) (c ptr : ℕ)
    → All IsSpace gap
    → c ≢ b' '
    → skip_spaces (gap ++ c ∷ rest) ptr ≡ ptr + length gap
unfolding skip_spaces
skip_spaces-gap [] rest c ptr h ne =
    let e : (c == b' ') ≡ false = ground arith in rw e (omega arith)
skip_spaces-gap (d ∷ gap) rest c ptr h ne =
    let e : (d == b' ') ≡ true = ground (arith, h.0) in
    rw e (skip_spaces-gap gap rest c (ptr + 1) h.1 ne ∙ omega arith)

find_end-word :
    (w rest : List ℕ) (c ptr : ℕ)
    → All IsPlain w
    → ((c == b' ') || (c == 0)) ≡ true
    → find_end (w ++ c ∷ rest) ptr ≡ ptr + length w
unfolding find_end
find_end-word [] rest c ptr h e = rw e (omega arith)
find_end-word (d ∷ w) rest c ptr h e =
    let f : (d == b' ') ≡ false = ground (arith, h.0) in
    let g : (d == 0) ≡ false = ground (arith, h.0) in
    rw (f, g) (find_end-word w rest c (ptr + 1) h.1 e ∙ omega arith)

pub c_string-word : (w rest : List ℕ) → All IsPlain w → c_string (w ++ 0 ∷ rest) ≡ w
unfolding c_string
c_string-word [] rest h = refl
c_string-word (d ∷ w) rest h =
    let g : (d == 0) ≡ false = ground (arith, h.0) in
    rw g (ap (λ l. d ∷ l) (c_string-word w rest h.1))

pub tokenize-end :
    (n : ℕ) (input : List ℕ) (ptr : ℕ) → get_or input ptr 0 ≡ 0 → tokenize n input ptr ≡ (input, [])
unfolding tokenize
tokenize-end zero input ptr e = refl
tokenize-end (suc n) input ptr e =
    let f : (get_or input ptr 0 == 0) ≡ true = ground arith in rw f refl

head_nonzero :
    (gap rest : List ℕ) (c : ℕ) → All IsSpace gap → c ≢ 0 → get_or (gap ++ c ∷ rest) 0 0 ≢ 0
head_nonzero [] rest c h ne = ne
head_nonzero (d ∷ gap) rest c h ne = λ e. omega (arith, h.0, e)

abbrev pub found_at : ℕ → List ℕ × List ℕ → List ℕ × List ℕ
found_at p r = (r.0, p ∷ r.1)

tokenize-step :
    (n : ℕ) (input : List ℕ) (ptr start end : ℕ)
    → skip_spaces (drop ptr input) ptr ≡ start
    → find_end (drop start input) start ≡ end
    → get_or input ptr 0 ≢ 0
    → get_or input start 0 ≢ 0
    → tokenize (suc n) input ptr ≡ (
        if get_or input end 0 == 0
        then found_at start (tokenize n input end)
        else found_at start (tokenize n (set input end 0) (end + 1)))
unfolding tokenize
tokenize-step n input ptr start end p q here there =
    let f : (get_or input ptr 0 == 0) ≡ false = ground arith in
    let g : (get_or input start 0 == 0) ≡ false = ground arith in rw (p, q, f, g) refl

-- One round, on a buffer with a gap and a word at the pointer, and a space or the end behind them.
module _ (n : ℕ) (pre gap w rest : List ℕ) (c e : ℕ) (spaces : All IsSpace gap)
    (letters : All IsPlain (c ∷ w)) (ends : ((e == b' ') || (e == 0)) ≡ true) where
  abbrev pub line : List ℕ
  line = pre ++ (gap ++ ((c ∷ w) ++ e ∷ rest))

  abbrev pub word_start : ℕ
  word_start = length pre + length gap

  abbrev pub word_end : ℕ
  word_end = word_start + length (c ∷ w)

  pub split_start : line ≡ (pre ++ gap) ++ ((c ∷ w) ++ e ∷ rest)
  split_start = sym (append_assoc pre gap _)

  pub split_end : line ≡ ((pre ++ gap) ++ (c ∷ w)) ++ e ∷ rest
  split_end = split_start ∙ sym (append_assoc (pre ++ gap) (c ∷ w) (e ∷ rest))

  pub length_start : word_start ≡ length (pre ++ gap)
  length_start = sym (length-append pre gap)

  pub length_end : word_end ≡ length ((pre ++ gap) ++ (c ∷ w))
  length_end = omega (arith, length-append (pre ++ gap) (c ∷ w), length-append pre gap)

  pub drop-start : drop word_start line ≡ (c ∷ w) ++ e ∷ rest
  drop-start = rw (length_start, split_start) (drop-length (pre ++ gap) _)

  pub get_or-end : get_or line word_end 0 ≡ e
  get_or-end = rw (length_end, split_end) (get_or-length ((pre ++ gap) ++ (c ∷ w)) (e ∷ rest))

  pub tokenize-word : tokenize (suc n) line (length pre) ≡ (
      if e == 0
      then found_at word_start (tokenize n line word_end)
      else found_at word_start (tokenize n (set line word_end 0) (word_end + 1)))
  tokenize-word =
      let first = drop-length pre (gap ++ ((c ∷ w) ++ e ∷ rest)) in
      let start : skip_spaces (drop (length pre) line) (length pre) ≡ word_start =
        ap (λ l. skip_spaces l (length pre)) first
        ∙ skip_spaces-gap gap (w ++ e ∷ rest) c (length pre) spaces letters.0.0 in
      let end : find_end (drop word_start line) word_start ≡ word_end =
        ap (λ l. find_end l word_start) drop-start
        ∙ find_end-word (c ∷ w) rest e word_start letters ends in
      let head : get_or line (length pre) 0 ≢ 0 = λ z.
        head_nonzero gap (w ++ e ∷ rest) c spaces letters.0.1
          (sym (get_or-length pre (gap ++ ((c ∷ w) ++ e ∷ rest))) ∙ z) in
      let letter : get_or line word_start 0 ≡ c =
        rw (length_start, split_start) (get_or-length (pre ++ gap) ((c ∷ w) ++ e ∷ rest)) in
      let not_end : get_or line word_start 0 ≢ 0 = λ z. letters.0.1 (sym letter ∙ z) in
      tokenize-step n line (length pre) word_start word_end start end head not_end
      ∙ ap
          (λ k.
            if k == 0
            then found_at word_start (tokenize n line word_end)
            else found_at word_start (tokenize n (set line word_end 0) (word_end + 1)))
          get_or-end
