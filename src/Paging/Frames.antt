-- ===== src/Paging/Frames.antt =====
-- The bitmap as the set of the frames in use.
use sojebos.Common.{ℕ, zero, suc, ◌-◌, ◌*◌, ◌/◌, ◌%◌, ◌^◌, ◌<◌, ◌≤◌, ◌≡◌, ◌≢◌, refl, sym, ◌∙◌}
use sojebos.Common.{true, false, not, inl, inr, ◌⊎◌, bit_or, bit_and}
use sojebos.Common.{List, length, get_or, arith}
use sojebos.Common.{◌==◌, if◌then◌else◌, ==_iff, Bool-cases}
use sojebos.Common.{length-set, get_or-set_self, get_or-set_ne}
use native.Mathlib.Nat.{pow-suc}
use sojebos.Common.Bits.{
  test_bit, test_bit-lt, test_bit-bit_or, test_bit-bit_and, bit_and-pow, all_below, all_below_sound,
}
use sojebos.Paging.{bitmap_set, bitmap_clear, bitmap_test}

-- Bit `k` of `2 ^ j` and of its complement, in a word of 32 bits
power_table :
    all_below 32 (λ j. all_below 32 (λ k. test_bit (2 ^ j) k == (if k == j then 1 else 0))) ≡ true
unfolding all_below test_bit
power_table = refl

mask_table :
    all_below 32
      (λ j. all_below 32 (λ k. test_bit (2 ^ 32 - 1 - 2 ^ j) k == (if k == j then 0 else 1)))
    ≡ true
unfolding all_below test_bit
mask_table = refl

test_bit-power : (j k : ℕ) → j < 32 → k < 32 → test_bit (2 ^ j) k ≡ (if k == j then 1 else 0)
test_bit-power j k hj hk =
    (==_iff _ _).0 (all_below_sound 32 _ k (all_below_sound 32 _ j power_table hj) hk)

test_bit-mask :
    (j k : ℕ) → j < 32 → k < 32 → test_bit (2 ^ 32 - 1 - 2 ^ j) k ≡ (if k == j then 0 else 1)
test_bit-mask j k hj hk =
    (==_iff _ _).0 (all_below_sound 32 _ k (all_below_sound 32 _ j mask_table hj) hk)

one_le_pow : (k : ℕ) → 1 ≤ 2 ^ k
one_le_pow zero = omega arith
one_le_pow (suc k) = omega (arith, pow-suc 2 k, one_le_pow k)

flag_test : (t p : ℕ) → t < 2 → 1 ≤ p → not (t * p == 0) ≡ (t == 1)
flag_test zero p h q = let e : 0 * p ≡ 0 = omega arith in rw e refl
flag_test (suc zero) p h q = ground arith
flag_test (suc (suc t)) p h q = absurd (omega arith)

-- `bitmap_test` reads one bit.
bitmap_test-bit :
    (i : ℕ) (bm : List ℕ) → bitmap_test i bm ≡ (test_bit (get_or bm (i / 32) 0) (i % 32) == 1)
unfolding bitmap_test
bitmap_test-bit i bm =
    let w = get_or bm (i / 32) 0 in
    rw (bit_and-pow (i % 32) w) (
      flag_test (test_bit w (i % 32)) (2 ^ (i % 32)) (test_bit-lt w (i % 32)) (one_le_pow (i % 32)))

-- A frame in the same word, another one, and the same frame.
compare_places : (i j : ℕ) → (j ≡ i) ⊎ ((i / 32 ≢ j / 32) ⊎ ((i / 32 ≡ j / 32) × (j % 32 ≢ i % 32)))
compare_places i j = elim (Bool-cases (j == i)) [
  | inl e ↦ inl ((==_iff j i).0 e)
  | inr e ↦ elim (Bool-cases (i / 32 == j / 32)) [
    | inl same ↦ inr (inr ((==_iff _ _).0 same, λ k. ground arith))
    | inr other ↦ inr (inl (λ k. ground arith))
  ]
]

pub length-bitmap_set : (i : ℕ) (bm : List ℕ) → length (bitmap_set i bm) ≡ length bm
unfolding bitmap_set
length-bitmap_set i bm = length-set bm (i / 32) _

pub bitmap_test-bitmap_set_self :
    (i : ℕ) (bm : List ℕ) → i / 32 < length bm → bitmap_test i (bitmap_set i bm) ≡ true
unfolding bitmap_set
bitmap_test-bitmap_set_self i bm h =
    let w = get_or bm (i / 32) 0 in
    let at = get_or-set_self bm (i / 32) (bit_or w (2 ^ (i % 32))) 0 h in
    let b = test_bit-bit_or (i % 32) w (2 ^ (i % 32)) in
    let p : test_bit (2 ^ (i % 32)) (i % 32) ≡ 1 =
      test_bit-power (i % 32) (i % 32) (omega arith) (omega arith) ∙ ground arith in
    let one : test_bit (bit_or w (2 ^ (i % 32))) (i % 32) ≡ 1 =
      omega (arith, b, p, test_bit-lt w (i % 32)) in
    rw (bitmap_test-bit i (bitmap_set i bm), at, one) refl

pub bitmap_test-bitmap_set_ne :
    (i j : ℕ) (bm : List ℕ)
    → i / 32 < length bm
    → j ≢ i
    → bitmap_test j (bitmap_set i bm) ≡ bitmap_test j bm
unfolding bitmap_set
bitmap_test-bitmap_set_ne i j bm h ne =
    rw (bitmap_test-bit j (bitmap_set i bm), bitmap_test-bit j bm)
      (elim (compare_places i j) [
        | inl same ↦ absurd (ne same)
        | inr (inl apart) ↦ rw (get_or-set_ne bm (i / 32) (j / 32) _ 0 apart) refl
        | inr (inr (word, bit)) ↦
            let w = get_or bm (i / 32) 0 in
            let b = test_bit-bit_or (j % 32) w (2 ^ (i % 32)) in
            let p : test_bit (2 ^ (i % 32)) (j % 32) ≡ 0 =
              test_bit-power (i % 32) (j % 32) (omega arith) (omega arith) ∙ ground arith in
            let e : test_bit (bit_or w (2 ^ (i % 32))) (j % 32) ≡ test_bit w (j % 32) =
              omega (arith, b, p) in
            rw (sym word, get_or-set_self bm (i / 32) (bit_or w (2 ^ (i % 32))) 0 h, e) refl
      ])

pub bitmap_test-bitmap_clear_self :
    (i : ℕ) (bm : List ℕ) → i / 32 < length bm → bitmap_test i (bitmap_clear i bm) ≡ false
unfolding bitmap_clear
bitmap_test-bitmap_clear_self i bm h =
    let w = get_or bm (i / 32) 0 in
    let mask = 2 ^ 32 - 1 - 2 ^ (i % 32) in
    let at = get_or-set_self bm (i / 32) (bit_and w mask) 0 h in
    let b = test_bit-bit_and (i % 32) w mask in
    let p : test_bit mask (i % 32) ≡ 0 =
      test_bit-mask (i % 32) (i % 32) (omega arith) (omega arith) ∙ ground arith in
    let none_left : test_bit (bit_and w mask) (i % 32) ≡ 0 = omega (arith, b, p) in
    rw (bitmap_test-bit i (bitmap_clear i bm), at, none_left) refl

pub bitmap_test-bitmap_clear_ne :
    (i j : ℕ) (bm : List ℕ)
    → i / 32 < length bm
    → j ≢ i
    → bitmap_test j (bitmap_clear i bm) ≡ bitmap_test j bm
unfolding bitmap_clear
bitmap_test-bitmap_clear_ne i j bm h ne =
    rw (bitmap_test-bit j (bitmap_clear i bm), bitmap_test-bit j bm)
      (elim (compare_places i j) [
        | inl same ↦ absurd (ne same)
        | inr (inl apart) ↦ rw (get_or-set_ne bm (i / 32) (j / 32) _ 0 apart) refl
        | inr (inr (word, bit)) ↦
            let w = get_or bm (i / 32) 0 in
            let mask = 2 ^ 32 - 1 - 2 ^ (i % 32) in
            let b = test_bit-bit_and (j % 32) w mask in
            let p : test_bit mask (j % 32) ≡ 1 =
              test_bit-mask (i % 32) (j % 32) (omega arith) (omega arith) ∙ ground arith in
            let e : test_bit (bit_and w mask) (j % 32) ≡ test_bit w (j % 32) =
              omega (arith, b, p, test_bit-lt w (j % 32)) in
            rw (sym word, get_or-set_self bm (i / 32) (bit_and w mask) 0 h, e) refl
      ])
