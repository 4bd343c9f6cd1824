-- ===== src/Calc/Lines.antt =====
-- A line of two numbers in decimal is calculated as the operator says.
use sojebos.Common.{
  ℕ, ◌^◌, ◌<◌, ◌≡◌, refl, sym, ap, ◌∙◌, inl, inr, false, Bool-cases, ==_iff, arith, List, [], ◌∷◌,
  ◌++◌, ◌==◌,
}
use mathlib.Core.List.{append-nil}
use sojebos.Calc.{skip_digits, apply_op, evaluate}
use sojebos.Strings.{atoi, itoa, is_digit}
use sojebos.Strings.Digits.{IsDigits, IsEnd, digits_of-IsDigits, itoa-reverse, itoa_zero, atoi-itoa}

skip_digits-IsDigits : (s rest : List ℕ) → IsDigits s → IsEnd rest → skip_digits (s ++ rest) ≡ rest
unfolding skip_digits
skip_digits-IsDigits [] [] h e = refl
skip_digits-IsDigits [] (c ∷ rest) h e = rw e refl
skip_digits-IsDigits (d ∷ s) rest h e = rw h.0 (skip_digits-IsDigits s rest h.1 e)

zero-is_digit : IsDigits (b'0' ∷ [])
zero-is_digit = (refl, tt)

itoa-IsDigits : (num : ℕ) → num < 2 ^ 31 → IsDigits (itoa num)
itoa-IsDigits num small = elim (Bool-cases (num == 0)) [
  | inl e ↦ let z : num ≡ 0 = (==_iff num 0).0 e in rw (z, itoa_zero) zero-is_digit
  | inr e ↦ rw (itoa-reverse num (λ z. ground arith) small) (digits_of-IsDigits 10 num)
]

-- For two numbers below 2 ^ 31 and any character that is no digit between them, the line's value is
-- what the character's operation makes of the numbers.
pub evaluate-itoa :
    (a b op : ℕ)
    → a < 2 ^ 31
    → b < 2 ^ 31
    → is_digit op ≡ false
    → evaluate (itoa a ++ op ∷ itoa b) ≡ apply_op op a b
unfolding evaluate
evaluate-itoa a b op small small' sign =
    let first = atoi-itoa a (op ∷ itoa b) small sign in
    let second = ap atoi (sym (append-nil (itoa b))) ∙ atoi-itoa b [] small' tt in
    let rest = skip_digits-IsDigits (itoa a) (op ∷ itoa b) (itoa-IsDigits a small) sign in
    rw (rest, first, second) refl
