-- ===== src/Strings/Address.antt =====
-- `parse_ip` on the notation of four numbers with dots between them.
use mathlib.Core.List.{append-nil}
use sojebos.Common.{
  ℕ, suc, ◌+◌, ◌*◌, ◌^◌, ◌<◌, ◌≡◌, refl, ap, sym, ◌∙◌, inl, inr, arith, true, false,
}
use sojebos.Common.{some, none, List, [], ◌∷◌, ◌++◌, length, drop, Bool-cases, ==_iff, ◌==◌, u32}
use sojebos.Common.Bits.{bit_or-add}
use sojebos.Strings.{is_digit, strchr, atoi, itoa, parse_octets, parse_ip}
use sojebos.Strings.Reverse.{set-at}
use sojebos.Strings.Digits.{IsDigits, digits_of-IsDigits, itoa-reverse, itoa_zero, atoi-itoa}

itoa-IsDigits : (num : ℕ) → num < 2 ^ 31 → IsDigits (itoa num)
itoa-IsDigits num small = elim (Bool-cases (num == 0)) [
  | inl e ↦ let z : num ≡ 0 = (==_iff num 0).0 e in rw (z, itoa_zero) (refl, tt)
  | inr e ↦ rw (itoa-reverse num (λ k. ground arith) small) (digits_of-IsDigits 10 num)
]

digit-tests : (c : ℕ) → is_digit c ≡ true → ((c == 0) ≡ false) × ((c == b'.') ≡ false)
digit-tests c h = (ground arith, ground arith)

strchr-dot : (s rest : List ℕ) → IsDigits s → strchr (s ++ (b'.' ∷ rest)) b'.' ≡ some (length s)
unfolding strchr
strchr-dot [] rest h = refl
strchr-dot (c ∷ s) rest h = let t = digit-tests c h.0 in rw (t.0, t.1, strchr-dot s rest h.1) refl

strchr-digits : (s : List ℕ) → IsDigits s → strchr s b'.' ≡ none
unfolding strchr
strchr-digits [] h = refl
strchr-digits (c ∷ s) h = let t = digit-tests c h.0 in rw (t.0, t.1, strchr-digits s h.1) refl

drop-at : (s : List ℕ) (c : ℕ) (rest : List ℕ) → drop (length s + 1) (s ++ (c ∷ rest)) ≡ rest
drop-at [] c rest = refl
drop-at (x ∷ s) c rest =
    let e : suc (length s) + 1 ≡ suc (length s + 1) = omega arith in rw e (drop-at s c rest)

-- One number and its dot.
parse_octets_round :
    (n i res a : ℕ) (rest : List ℕ)
    → a < 256
    → res < 2 ^ (i * 8)
    → a * 2 ^ (i * 8) < 2 ^ 32
    → parse_octets (suc n) i res (itoa a ++ (b'.' ∷ rest))
      ≡ parse_octets n (i + 1) (res + a * 2 ^ (i * 8)) rest
unfolding parse_octets
parse_octets_round n i res a rest ha hr hs =
    let found = strchr-dot (itoa a) rest (itoa-IsDigits a (omega arith)) in
    let cut = set-at (itoa a) b'.' rest (length (itoa a)) 0 refl in
    let value = atoi-itoa a (0 ∷ rest) (omega arith) refl in
    let word : u32 (a * 2 ^ (i * 8)) ≡ a * 2 ^ (i * 8) = grind arith in
    rw (found, parse_octets, cut, value, word, drop-at (itoa a) 0 rest, bit_or-add (i * 8) res a hr)
      refl

parse_octets_last :
    (i res a : ℕ)
    → a < 256
    → res < 2 ^ (i * 8)
    → a * 2 ^ (i * 8) < 2 ^ 32
    → parse_octets 1 i res (itoa a) ≡ res + a * 2 ^ (i * 8)
unfolding parse_octets
parse_octets_last i res a ha hr hs =
    let found = strchr-digits (itoa a) (itoa-IsDigits a (omega arith)) in
    let value = ap atoi (sym (append-nil (itoa a))) ∙ atoi-itoa a [] (omega arith) tt in
    let word : u32 (a * 2 ^ (i * 8)) ≡ a * 2 ^ (i * 8) = grind arith in
    rw (found, parse_octets, value, word, bit_or-add (i * 8) res a hr) refl

-- Four numbers below 256 with dots between them are read as the address with the first in the lowest
-- byte.
pub parse_ip-itoa :
    (a b c d : ℕ)
    → a < 256
    → b < 256
    → c < 256
    → d < 256
    → parse_ip (itoa a ++ (b'.' ∷ (itoa b ++ (b'.' ∷ (itoa c ++ (b'.' ∷ itoa d))))))
      ≡ a + b * 2 ^ 8 + c * 2 ^ 16 + d * 2 ^ 24
unfolding parse_ip
parse_ip-itoa a b c d ha hb hc hd =
    parse_octets_round 3 0 0 a _ ha (omega arith) (omega arith)
    ∙ parse_octets_round 2 1 _ b _ hb (omega arith) (omega arith)
    ∙ parse_octets_round 1 2 _ c _ hc (omega arith) (omega arith)
    ∙ parse_octets_last 3 _ d hd (omega arith) (omega arith)
    ∙ omega arith
