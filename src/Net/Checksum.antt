-- ===== src/Net/Checksum.antt =====
-- The Internet checksum as a sum modulo 2 ^ 16 - 1.
use sojebos.Common.{ℕ, suc, ◌+◌, ◌-◌, ◌*◌, ◌/◌, ◌%◌, ◌^◌, ◌<◌, ◌≤◌, ◌≡◌, ◌≢◌, refl, ◌∙◌}
use sojebos.Common.{
  true, length-append, List, [], ◌∷◌, ◌++◌, length, All, arith, inl, inr, Bool-cases, u32, ◌==◌,
}
use sojebos.Net.{sum_words, fold_carries, net_checksum}

-- The sum of the 16-bit words, as a number without bound
unfoldable pub word_sum : List ℕ → ℕ
word_sum [] = 0
word_sum (a ∷ []) = a
word_sum (a ∷ b ∷ rest) = a + 256 * b + word_sum rest

abbrev pub IsBytes : List ℕ → Type 0
IsBytes xs = All (λ b. b < 256) xs

word_sum-le : (xs : List ℕ) → IsBytes xs → word_sum xs * 2 ≤ 65535 * (length xs + 1)
unfolding word_sum
word_sum-le [] h = omega arith
word_sum-le (a ∷ []) h = omega (arith, h.0)
word_sum-le (a ∷ b ∷ rest) h = omega (arith, h.0, h.1.0, word_sum-le rest h.1.1)

sum_words-word_sum :
    (xs : List ℕ) (sum : ℕ) → sum + word_sum xs < 2 ^ 32 → sum_words xs sum ≡ sum + word_sum xs
unfolding sum_words word_sum
sum_words-word_sum [] sum h = omega arith
sum_words-word_sum (a ∷ []) sum h = omega arith
sum_words-word_sum (a ∷ b ∷ rest) sum h =
    let small : u32 (sum + (a + 256 * b)) ≡ sum + (a + 256 * b) = omega (arith, h) in
    rw small (sum_words-word_sum rest (sum + (a + 256 * b)) (omega (arith, h)) ∙ omega arith)

-- A 16-bit number that is a sum modulo 65535, and 0 only for 0
abbrev pub IsFolded : ℕ → ℕ → Type 0
IsFolded r sum = (r < 2 ^ 16) × (r % 65535 ≡ sum % 65535) × (sum ≢ 0 → r ≢ 0) × (sum ≡ 0 → r ≡ 0)

fold_carries-done : (fuel sum : ℕ) → sum < 2 ^ 16 → fold_carries (suc fuel) sum ≡ sum
unfolding fold_carries
fold_carries-done fuel sum h = let z : (sum / 2 ^ 16 == 0) ≡ true = ground arith in rw z refl

round-IsFolded : (r sum : ℕ) → IsFolded r (sum % 2 ^ 16 + sum / 2 ^ 16) → IsFolded r sum
round-IsFolded r sum (lt, same, pos, zer) =
    (lt, omega (arith, same), λ n. pos (omega (arith, n)), λ z. zer (omega (arith, z)))

fold_carries-round :
    (fuel sum : ℕ)
    → IsFolded (fold_carries fuel (sum % 2 ^ 16 + sum / 2 ^ 16)) (sum % 2 ^ 16 + sum / 2 ^ 16)
    → IsFolded (fold_carries (suc fuel) sum) sum
unfolding fold_carries
fold_carries-round fuel sum h = elim (Bool-cases (sum / 2 ^ 16 == 0)) [
  | inl e ↦ rw e (ground arith, refl, λ n. n, λ z. z)
  | inr e ↦ rw e (round-IsFolded _ sum h)
]

-- Three rounds fold any 32-bit sum.
pub fold_carries-IsFolded : (sum : ℕ) → sum < 2 ^ 32 → IsFolded (fold_carries 3 sum) sum
fold_carries-IsFolded sum h =
    let one = sum % 2 ^ 16 + sum / 2 ^ 16 in
    let two = one % 2 ^ 16 + one / 2 ^ 16 in
    let small : two < 2 ^ 16 = omega (arith, h) in
    fold_carries-round 2 sum
      (fold_carries-round 1 one (rw (fold_carries-done 0 two small) (small, refl, λ n. n, λ z. z)))

word_sum-append :
    (xs ys : List ℕ) → length xs % 2 ≡ 0 → word_sum (xs ++ ys) ≡ word_sum xs + word_sum ys
unfolding word_sum
word_sum-append [] ys h = omega arith
word_sum-append (a ∷ []) ys h = absurd (omega (arith, h))
word_sum-append (a ∷ b ∷ rest) ys h = omega (arith, word_sum-append rest ys (omega (arith, h)))

put-IsBytes :
    (before after : List ℕ) (c : ℕ)
    → IsBytes (before ++ 0 ∷ 0 ∷ after)
    → c < 2 ^ 16
    → IsBytes (before ++ c % 256 ∷ c / 256 % 256 ∷ after)
put-IsBytes [] after c h lt = (omega arith, (omega arith, h.1.1))
put-IsBytes (b ∷ before) after c h lt = (h.0, put-IsBytes before after c h.1 lt)

net_checksum-IsFolded :
    (xs : List ℕ)
    → IsBytes xs
    → length xs ≤ 65535
    → (r : ℕ) × IsFolded r (word_sum xs) × (net_checksum xs ≡ 65535 - r)
unfolding net_checksum
net_checksum-IsFolded xs bytes short =
    let whole : sum_words xs 0 ≡ word_sum xs =
      omega (arith, sum_words-word_sum xs 0 (omega (arith, word_sum-le xs bytes))) in
    let f = fold_carries-IsFolded (word_sum xs) (omega (arith, word_sum-le xs bytes)) in
    (fold_carries 3 (word_sum xs), f, rw whole (omega (arith, f.0)))

zero-IsFolded : {sum r c s : ℕ} → sum ≡ 0 → (sum ≡ 0 → r ≡ 0) → s ≡ 65535 - r → s ≡ c → c ≡ 0 → ⊥
zero-IsFolded z zer e k n = let r0 = zer z in absurd (omega (arith, r0, e, k, n))

pub net_checksum-lt : (xs : List ℕ) → net_checksum xs < 2 ^ 16
unfolding net_checksum
net_checksum-lt xs = omega arith

-- For up to 65535 bytes, a checksum computed with its own field, at an even place, set to 0 and then
-- put there makes the checksum of the whole 0.
pub net_checksum-verifies :
    (before after : List ℕ)
    → All (λ b. b < 256) (before ++ 0 ∷ 0 ∷ after)
    → length (before ++ 0 ∷ 0 ∷ after) ≤ 65535
    → length before % 2 ≡ 0
    → (c : ℕ) → net_checksum (before ++ 0 ∷ 0 ∷ after) ≡ c
    → net_checksum (before ++ c % 256 ∷ c / 256 % 256 ∷ after) ≡ 0
unfolding word_sum
net_checksum-verifies before after bytes short even c is_sum =
    let (r, (lt, same, pos, zer), eq) =
      net_checksum-IsFolded (before ++ 0 ∷ 0 ∷ after) bytes short in
    let filled = put-IsBytes before after c bytes (omega (arith, eq, is_sum)) in
    let (q, (qlt, qsame, qpos, qzer), qeq) =
      net_checksum-IsFolded (before ++ c % 256 ∷ c / 256 % 256 ∷ after) filled (
        omega (
          arith,
          length-append before (0 ∷ 0 ∷ after),
          length-append before (c % 256 ∷ c / 256 % 256 ∷ after),
          short,
        )) in
    let old = word_sum-append before (0 ∷ 0 ∷ after) even in
    let new = word_sum-append before (c % 256 ∷ c / 256 % 256 ∷ after) even in
    let total : word_sum (before ++ c % 256 ∷ c / 256 % 256 ∷ after)
        ≡ word_sum (before ++ 0 ∷ 0 ∷ after) + c =
      omega (arith, old, new) in
    let some_bit : word_sum (before ++ c % 256 ∷ c / 256 % 256 ∷ after) ≢ 0 = λ z.
      absurd (zero-IsFolded (omega (arith, z, total)) zer eq is_sum (omega (arith, z, total))) in
    let qn = qpos some_bit in
    let positive = pos in
    grind (arith, qeq, lt, same, qlt, qsame, total, eq, is_sum, qn, positive, zer)
