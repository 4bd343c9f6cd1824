-- ===== src/Strings/Digits.antt =====
-- `itoa` writes the decimal notation that `atoi` reads.
use mathlib.Core.List.{reverse, reverse-cons, reverse-append}
use native.Mathlib.Nat.{pow-suc}
use sojebos.Common.{
  ℕ, zero, suc, ◌+◌, ◌-◌, ◌*◌, ◌/◌, ◌%◌, ◌^◌, ◌≤◌, ◌<◌, ◌≡◌, ◌≢◌, refl, ◌∙◌, inl, inr, arith,
}
use sojebos.Common.{
  true, false, List, [], ◌∷◌, ◌++◌, All, Bool-cases, ◌==◌, ==_iff, u32, lt→ltb, le→ltb,
}
use sojebos.Strings.{is_digit, atoi_from, atoi, digits_of, itoa}
use sojebos.Strings.Reverse.{swap_ends_all}

abbrev pub IsDigits : List ℕ → Type 0
IsDigits s = All (λ c. is_digit c ≡ true) s

-- What `atoi` makes of a text that does not begin with a digit
abbrev pub IsEnd : List ℕ → Type 0
IsEnd [] = Unit
IsEnd (c ∷ s) = is_digit c ≡ false

atoi_from-end : (result : ℕ) (rest : List ℕ) → IsEnd rest → atoi_from result rest ≡ result
unfolding atoi_from
atoi_from-end result [] h = refl
atoi_from-end result (c ∷ s) h = rw h refl

atoi_from-append :
    (result : ℕ) (s rest : List ℕ)
    → IsDigits s
    → atoi_from result (s ++ rest) ≡ atoi_from (atoi_from result s) rest
unfolding atoi_from
atoi_from-append result [] rest h = refl
atoi_from-append result (c ∷ s) rest h =
    rw h.0 (atoi_from-append (u32 (result * 10 + (c - b'0'))) s rest h.1)

atoi_from_digit :
    (result c : ℕ) → is_digit c ≡ true → atoi_from result (c ∷ []) ≡ u32 (result * 10 + (c - b'0'))
unfolding atoi_from
atoi_from_digit result c h = rw h refl

digit-is_digit : (num : ℕ) → is_digit (num % 10 + b'0') ≡ true
digit-is_digit num = ground arith

All-snoc : (s : List ℕ) (c : ℕ) → IsDigits s → is_digit c ≡ true → IsDigits (s ++ c ∷ [])
All-snoc [] c h k = (k, tt)
All-snoc (x ∷ s) c h k = (h.0, All-snoc s c h.1 k)

pub digits_of-IsDigits : (fuel num : ℕ) → IsDigits (reverse (digits_of fuel num))
unfolding digits_of
digits_of-IsDigits zero num = tt
digits_of-IsDigits (suc fuel) num = elim (Bool-cases (num == 0)) [
  | inl e ↦ rw e tt
  | inr e ↦ rw e (
      rw (reverse-cons (num % 10 + b'0') (digits_of fuel (num / 10)))
        (All-snoc _ _ (digits_of-IsDigits fuel (num / 10)) (digit-is_digit num)))
]

pub atoi_from-digits_of :
    (fuel num : ℕ)
    → num < 10 ^ fuel
    → num < 2 ^ 32
    → atoi_from 0 (reverse (digits_of fuel num)) ≡ num
unfolding digits_of
atoi_from-digits_of zero num h w = let z : num ≡ 0 = omega arith in rw z (atoi_from-end 0 [] tt)
atoi_from-digits_of (suc fuel) num h w = elim (Bool-cases (num == 0)) [
  | inl e ↦ let z : num ≡ 0 = (==_iff num 0).0 e in rw (e, z) (atoi_from-end 0 [] tt)
  | inr e ↦
      let ds = reverse (digits_of fuel (num / 10)) in
      let less = pow-suc 10 fuel in
      let ih = atoi_from-digits_of fuel (num / 10) (omega (arith, less)) (omega arith) in
      rw e (
        rw (reverse-cons (num % 10 + b'0') (digits_of fuel (num / 10))) (
          atoi_from-append 0 ds ((num % 10 + b'0') ∷ []) (digits_of-IsDigits fuel (num / 10))
          ∙ rw ih
              (atoi_from_digit (num / 10) (num % 10 + b'0') (digit-is_digit num) ∙ omega arith)))
]

pub itoa-reverse : (num : ℕ) → num ≢ 0 → num < 2 ^ 31 → itoa num ≡ reverse (digits_of 10 num)
unfolding itoa
itoa-reverse num nz small =
    let e : (num == 0) ≡ false = ground arith in
    rw (e, lt→ltb num (2 ^ 31) small) (swap_ends_all (digits_of 10 num))

-- A negative number has a sign before the digits of its absolute value.
pub itoa-negative :
    (num : ℕ) → 2 ^ 31 ≤ num → itoa num ≡ b'-' ∷ reverse (digits_of 10 (2 ^ 32 - num))
unfolding itoa
itoa-negative num big =
    let e : (num == 0) ≡ false = ground arith in
    rw (e, le→ltb num (2 ^ 31) big)
      (swap_ends_all (digits_of 10 (2 ^ 32 - num) ++ b'-' ∷ [])
        ∙ reverse-append (digits_of 10 (2 ^ 32 - num)) (b'-' ∷ []))

pub itoa_zero : itoa 0 ≡ b'0' ∷ []
unfolding itoa
itoa_zero = refl

-- The notation of a number below 2 ^ 31, followed by anything but a digit, is read back.
pub atoi-itoa :
    (num : ℕ) (rest : List ℕ) → num < 2 ^ 31 → IsEnd rest → atoi (itoa num ++ rest) ≡ num
unfolding atoi
atoi-itoa num rest small stop = elim (Bool-cases (num == 0)) [
  | inl e ↦
      let z : num ≡ 0 = (==_iff num 0).0 e in
      rw (z, itoa_zero)
        (atoi_from-append 0 (b'0' ∷ []) rest (refl, tt)
          ∙ atoi_from-end _ rest stop
          ∙ atoi_from_digit 0 b'0' refl)
  | inr e ↦ rw (itoa-reverse num (λ k. ground arith) small) (
      atoi_from-append 0 (reverse (digits_of 10 num)) rest (digits_of-IsDigits 10 num)
      ∙ atoi_from-end _ rest stop
      ∙ atoi_from-digits_of 10 num (omega arith) (omega arith))
]
