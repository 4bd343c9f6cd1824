-- ===== src/Console/ReadLine.antt =====
-- `console_read_line` against the editing of a line by newline and backspace.
use sojebos.Common.{
  ◌⊎◌, ℕ, zero, suc, ◌+◌, ◌-◌, ◌<◌, ◌≤◌, ◌≡◌, refl, ◌∙◌, inl, inr, arith, true, false, ap, sym,
}
use sojebos.Common.{
  Option, some, none, List, [], ◌∷◌, ◌++◌, length, get_or, set, take, Bool-cases, ◌==◌, ltb,
  if◌then◌else◌,
}
use sojebos.Common.{length-set, get_or-set_self, length-take, length-append, lt→ltb}
use sojebos.Console.{Line, console_putchar, console_read_line}

-- The line that a user has typed, at most `max` - 1 characters: newline ends it, backspace takes back
-- the last character, and what is too much is dropped. `none`: no newline yet.
unfoldable pub edited : ℕ → List ℕ → List ℕ → Option (List ℕ)
edited max typed [] = none
edited max typed (c ∷ input) =
    let back = edited max (take (length typed - 1) typed) input in
    let same = edited max typed input in
    let more = edited max (typed ++ c ∷ []) input in
    if c == 10
    then some typed
    else if c == 8
    then if ltb 0 (length typed) then back else same
    else if ltb (length typed) (max - 1)
    then more
    else same

take-set_self :
    (xs : List ℕ) (i c : ℕ) → i < length xs → take (i + 1) (set xs i c) ≡ take i xs ++ c ∷ []
take-set_self [] i c h = absurd (omega (arith, h))
take-set_self (x ∷ xs) zero c h = refl
take-set_self (x ∷ xs) (suc i) c h =
    let z : suc i + 1 ≡ suc (i + 1) = omega arith in
    rw z (ap (λ t. x ∷ t) (take-set_self xs i c (omega (arith, h))))

take-set_before : (xs : List ℕ) (i c : ℕ) → take i (set xs i c) ≡ take i xs
take-set_before [] i c = refl
take-set_before (x ∷ xs) zero c = refl
take-set_before (x ∷ xs) (suc i) c = ap (λ t. x ∷ t) (take-set_before xs i c)

take-take : (xs : List ℕ) (n m : ℕ) → n ≤ m → take n (take m xs) ≡ take n xs
take-take xs zero m h = refl
take-take xs (suc n) zero h = absurd (omega (arith, h))
take-take [] (suc n) (suc m) h = refl
take-take (x ∷ xs) (suc n) (suc m) h = ap (λ t. x ∷ t) (take-take xs n m (omega (arith, h)))

-- The buffer holds a string of the C kind, and has its size.
pub record Holds (max_len : ℕ) (typed buffer : List ℕ) : Type 0 where
  pub size : length buffer ≡ max_len
  pub fits : length typed < max_len
  pub text : take (length typed) buffer ≡ typed
  pub end : get_or buffer (length typed) 1 ≡ 0

newline-Holds :
    {max_len : ℕ} (idx : ℕ) (typed buffer : List ℕ)
    → idx ≡ length typed
    → length buffer ≡ max_len
    → idx < max_len
    → take idx buffer ≡ typed
    → Holds max_len typed (set buffer idx 0)
newline-Holds idx typed buffer same size fits text = record {
  size = length-set buffer idx 0 ∙ size;
  fits = omega (arith, same, fits);
  text = rw (sym same) (take-set_before buffer idx 0 ∙ text);
  end = rw (sym same) (get_or-set_self buffer idx 0 1 (omega (arith, size, fits)));
}

module _ (max_len : ℕ) (some_room : 0 < max_len) where
  read_from :
      (idx : ℕ) (typed input : List ℕ) (line : Line)
      → idx ≡ length typed
      → length line.buffer ≡ max_len
      → idx < max_len
      → take idx line.buffer ≡ typed
      → ((edited max_len typed input ≡ none) × (console_read_line max_len idx input line ≡ none))
        ⊎ ((result : List ℕ) × (after : Line) × (edited max_len typed input ≡ some result)
            × (console_read_line max_len idx input line ≡ some after)
            × Holds max_len result after.buffer)
  unfolding edited console_read_line
  read_from idx typed [] line same size fits text = inl (refl, refl)
  read_from idx typed (c ∷ input) line same size fits text =
      let inside : ltb idx (length line.buffer) ≡ true = lt→ltb _ _ (omega (arith, size, fits)) in
      let shown = record line { console = console_putchar c line.console } in
      elim (Bool-cases (c == 10)) [
        | inl e ↦
            let after = record shown { buffer = set line.buffer idx 0 } in
            rw (e, inside)
              (inr
                (typed, after, refl, refl, newline-Holds idx typed line.buffer same size fits text))
        | inr e ↦ elim (Bool-cases (c == 8)) [
          | inl b ↦ elim (Bool-cases (ltb 0 idx)) [
            | inl z ↦
                let zt : ltb 0 (length typed) ≡ true = rw (sym same) z in
                rw (e, b, z, zt)
                  (read_from (idx - 1) (take (length typed - 1) typed) input shown
                    (omega (arith, same, length-take (length typed - 1) typed)) size
                    (omega (arith, fits))
                    (rw (sym same, sym text)
                      (sym (take-take line.buffer (idx - 1) idx (omega arith)))))
            | inr z ↦
                let zt : ltb 0 (length typed) ≡ false = rw (sym same) z in
                rw (e, b, z, zt) (read_from idx typed input line same size fits text)
          ]
          | inr b ↦ elim (Bool-cases (ltb idx (max_len - 1))) [
            | inl z ↦
                let zt : ltb (length typed) (max_len - 1) ≡ true = rw (sym same) z in
                rw (e, b, z, zt, inside)
                  (read_from (idx + 1) (typed ++ c ∷ []) input
                    (record shown { buffer = set line.buffer idx c })
                    (omega (arith, same, length-append typed (c ∷ [])))
                    (length-set line.buffer idx c ∙ size) (ground arith)
                    (take-set_self line.buffer idx c (omega (arith, size, fits))
                      ∙ ap (λ t. t ++ c ∷ []) text))
            | inr z ↦
                let zt : ltb (length typed) (max_len - 1) ≡ false = rw (sym same) z in
                rw (e, b, z, zt) (read_from idx typed input line same size fits text)
          ]
        ]
      ]

  -- With a buffer of `max_len` bytes, `console_read_line` never writes outside of it. It returns when
  -- the typed characters have a newline, and then the buffer holds the edited line, of fewer than
  -- `max_len` characters, and a zero behind it.
  pub console_read_line-edited :
      (input : List ℕ) (line : Line)
      → length line.buffer ≡ max_len
      → ((edited max_len [] input ≡ none) × (console_read_line max_len 0 input line ≡ none))
        ⊎ ((result : List ℕ) × (after : Line) × (edited max_len [] input ≡ some result)
            × (console_read_line max_len 0 input line ≡ some after)
            × Holds max_len result after.buffer)
  console_read_line-edited input line size = read_from 0 [] input line refl size some_room refl
