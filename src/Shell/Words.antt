-- ===== src/Shell/Words.antt =====
-- The words of a line, and how the line is made of them.

use sojebos.Common.{
  ℕ, ◌≡◌, ◌≢◌, refl, ap, ◌∙◌, ◌⊎◌, inl, inr, true, false, Bool, Bool-cases, not, List, [], ◌∷◌,
  ◌++◌, All, ◌==◌, if◌then◌else◌, arith,
}

-- The maximal pieces without a space
unfoldable pub starts_word : List ℕ → Bool
starts_word [] = false
starts_word (c ∷ s) = not (c == b' ')

unfoldable pub push : ℕ → List (List ℕ) → List (List ℕ)
push c [] = (c ∷ []) ∷ []
push c (w ∷ ws) = (c ∷ w) ∷ ws

unfoldable pub words : List ℕ → List (List ℕ)
words [] = []
words (c ∷ s) =
    let rest = words s in
    if c == b' ' then rest else if starts_word s then push c rest else (c ∷ []) ∷ rest

abbrev pub IsSpace : ℕ → Type 0
IsSpace c = c ≡ b' '

-- A character of a word
abbrev pub IsPlain : ℕ → Type 0
IsPlain c = (c ≢ b' ') × (c ≢ 0)

abbrev pub IsText : List ℕ → Type 0
IsText s = All (λ c. c ≢ 0) s

pub words-spaces : (gap s : List ℕ) → All IsSpace gap → words (gap ++ s) ≡ words s
unfolding words
words-spaces [] s h = refl
words-spaces (c ∷ gap) s h =
    let e : (c == b' ') ≡ true = ground (arith, h.0) in rw e (words-spaces gap s h.1)

-- A word, and what is left behind it: nothing, or a space and more.
pub data Behind : List ℕ → List ℕ → Type 0 where
  nothing : Behind [] []
  space : (t : List ℕ) → Behind (b' ' ∷ t) t

words_letter :
    (c : ℕ) (s : List ℕ)
    → (c == b' ') ≡ false
    → starts_word s ≡ true
    → words (c ∷ s) ≡ push c (words s)
unfolding words
words_letter c s e f = rw (e, f) refl

push-words :
    (c d : ℕ) (s w : List ℕ) (ws : List (List ℕ))
    → (c == b' ') ≡ false
    → (d == b' ') ≡ false
    → words (d ∷ s) ≡ (d ∷ w) ∷ ws
    → words (c ∷ d ∷ s) ≡ (c ∷ d ∷ w) ∷ ws
unfolding starts_word push
push-words c d s w ws e f eq = words_letter c (d ∷ s) e (rw f refl) ∙ ap (push c) eq

pub words-cons :
    (c : ℕ) (s : List ℕ)
    → c ≢ b' '
    → IsText s
    → (w : List ℕ) × (t : List ℕ) × (t' : List ℕ) × (s ≡ w ++ t)
      × All IsPlain w
      × Behind t t'
      × IsText t'
      × (words (c ∷ s) ≡ (c ∷ w) ∷ words t')
unfolding words starts_word push
words-cons c [] ne h =
    let e : (c == b' ') ≡ false = ground arith in ([], [], [], refl, tt, nothing, tt, rw e refl)
words-cons c (d ∷ s) ne h =
    let e : (c == b' ') ≡ false = ground arith in
    elim (Bool-cases (d == b' ')) [
      | inl f ↦
          let g : d ≡ b' ' = ground arith in
          ([], d ∷ s, s, refl, tt, rw g (space s), h.1, rw (e, f) refl)
      | inr f ↦
          let (w, t, t', same, plain, behind, text, eq) = words-cons d s (ground arith) h.1 in
          (
            d ∷ w,
            t,
            t',
            ap (λ l. d ∷ l) same,
            ((ground arith, h.0), plain),
            behind,
            text,
            push-words c d s w (words t') e f eq,
          )
    ]

-- A text is blank, or a gap, a word and what is behind it.
pub gap_split :
    (s : List ℕ)
    → IsText s
    → All IsSpace s
      ⊎ ((gap : List ℕ) × (c : ℕ) × (w : List ℕ) × (t : List ℕ) × (t' : List ℕ) × (s
            ≡ gap ++ ((c ∷ w) ++ t))
          × All IsSpace gap
          × All IsPlain (c ∷ w)
          × Behind t t'
          × IsText t'
          × (words s ≡ (c ∷ w) ∷ words t'))
gap_split [] h = inl tt
gap_split (d ∷ s) h = elim (Bool-cases (d == b' ')) [
  | inl e ↦
      let here : d ≡ b' ' = ground arith in
      let skip : words (d ∷ s) ≡ words s = words-spaces (d ∷ []) s (here, tt) in
      elim (gap_split s h.1) [
        | inl blank ↦ inl (here, blank)
        | inr (gap, c, w, t, t', same, spaces, letters, behind, text, eq) ↦ inr (
          d ∷ gap,
          c,
          w,
          t,
          t',
          ap (λ l. d ∷ l) same,
          (here, spaces),
          letters,
          behind,
          text,
          skip ∙ eq,
        )
      ]
  | inr e ↦
      let letter : d ≢ b' ' = ground arith in
      let (w, t, t', same, plain, behind, text, eq) = words-cons d s letter h.1 in
      inr ([], d, w, t, t', ap (λ l. d ∷ l) same, tt, ((letter, h.0), plain), behind, text, eq)
]

pub words-blank : (s : List ℕ) → All IsSpace s → words s ≡ []
unfolding words
words-blank [] h = refl
words-blank (c ∷ s) h = let e : (c == b' ') ≡ true = ground (arith, h.0) in rw e (words-blank s h.1)
