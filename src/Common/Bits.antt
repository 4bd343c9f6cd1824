-- ===== src/Common/Bits.antt =====
-- Bits of words: `bit_and` and `bit_or` read one binary digit at a time.
use Prim.Native.Nat.{ℕ, zero, suc, ◌+◌, ◌*◌, ◌/◌, ◌%◌, ◌^◌, ◌≤◌, ◌<◌, min, max}
use Prim.Native.Nat.{bit_and, bit_or, digits, bitwise, bit_and-bitwise, bit_or-bitwise}
use mathlib.Core.Path.{◌≡◌, refl, ap}
use mathlib.Core.Bool.{Bool, true, ◌&&◌}
use native.Mathlib.Omega.{arith}
use native.Mathlib.Nat.{le_refl, pow-suc}

-- One digit of `bitwise`: the recursion's fuel does not show in its result.
module _ (left : ℕ → ℕ) (op : ℕ → ℕ → ℕ) where
  digits-bitwise : (k n x y : ℕ) → n ≤ k → x ≤ n → digits left op n x y ≡ bitwise left op x y
  digits-bitwise k zero zero y nk xn = refl
  digits-bitwise k (suc n) zero y nk xn = refl
  digits-bitwise k zero (suc x) y nk xn = absurd (omega arith)
  digits-bitwise zero (suc n) (suc x) y nk xn = absurd (omega arith)
  digits-bitwise (suc k) (suc n) (suc x) y nk xn =
      let half = suc x / 2 in
      let long = digits-bitwise k n half (y / 2) (omega arith) (omega arith) in
      let short = digits-bitwise k x half (y / 2) (omega arith) (omega arith) in rw (long, short)

  bitwise_step :
      (x y : ℕ)
      → bitwise left op (suc x) y ≡ bitwise left op (suc x / 2) (y / 2) * 2 + op (suc x % 2) (y % 2)
  bitwise_step x y =
      ap (λ t. t * 2 + op (suc x % 2) (y % 2))
        (digits-bitwise x x (suc x / 2) (y / 2) (le_refl x) (omega arith))

pub bit_or_step : (x y : ℕ) → bit_or x y ≡ bit_or (x / 2) (y / 2) * 2 + max (x % 2) (y % 2)
bit_or_step zero y = rw (bit_or-bitwise 0 y, bit_or-bitwise 0 (y / 2)) (omega arith)
bit_or_step (suc x) y =
    rw (bit_or-bitwise (suc x) y, bit_or-bitwise (suc x / 2) (y / 2))
      (bitwise_step (λ r. r) max x y)

pub bit_and_step : (x y : ℕ) → bit_and x y ≡ bit_and (x / 2) (y / 2) * 2 + min (x % 2) (y % 2)
bit_and_step zero y = rw (bit_and-bitwise 0 y, bit_and-bitwise 0 (y / 2)) (omega arith)
bit_and_step (suc x) y =
    rw (bit_and-bitwise (suc x) y, bit_and-bitwise (suc x / 2) (y / 2))
      (bitwise_step (λ r. 0) min x y)

-- Bit `k` of `a`, as 0 or 1.
unfoldable pub test_bit : ℕ → ℕ → ℕ
test_bit a zero = a % 2
test_bit a (suc k) = test_bit (a / 2) k

pub test_bit-lt : (a k : ℕ) → test_bit a k < 2
unfolding test_bit
test_bit-lt a zero = omega arith
test_bit-lt a (suc k) = test_bit-lt (a / 2) k

pub test_bit-bit_or : (k a b : ℕ) → test_bit (bit_or a b) k ≡ max (test_bit a k) (test_bit b k)
unfolding test_bit
test_bit-bit_or zero a b = omega (arith, bit_or_step a b)
test_bit-bit_or (suc k) a b =
    let e : bit_or a b / 2 ≡ bit_or (a / 2) (b / 2) = omega (arith, bit_or_step a b) in
    rw e (test_bit-bit_or k (a / 2) (b / 2))

pub test_bit-bit_and : (k a b : ℕ) → test_bit (bit_and a b) k ≡ min (test_bit a k) (test_bit b k)
unfolding test_bit
test_bit-bit_and zero a b = omega (arith, bit_and_step a b)
test_bit-bit_and (suc k) a b =
    let e : bit_and a b / 2 ≡ bit_and (a / 2) (b / 2) = omega (arith, bit_and_step a b) in
    rw e (test_bit-bit_and k (a / 2) (b / 2))

-- No bit survives a mask of zero.
pub bit_and-zero : (x : ℕ) → bit_and x 0 ≡ 0
bit_and-zero x = halve x x (le_refl x)
  where
    halve : (k y : ℕ) → y ≤ k → bit_and y 0 ≡ 0
    halve k zero yk = refl
    halve zero (suc y) yk = absurd (omega arith)
    halve (suc k) (suc y) yk =
        let upper = halve k (suc y / 2) (omega arith) in
        omega (arith, upper, bit_and_step (suc y) 0)

-- Masking with one bit keeps that bit in its place.
pub bit_and-pow : (k a : ℕ) → bit_and a (2 ^ k) ≡ test_bit a k * 2 ^ k
unfolding test_bit
bit_and-pow zero a = omega (arith, bit_and_step a 1, bit_and-zero (a / 2))
bit_and-pow (suc k) a =
    let p = pow-suc 2 k in
    let h : 2 ^ suc k / 2 ≡ 2 ^ k = omega (arith, p) in
    let e = bit_and-pow k (a / 2) in
    let s : bit_and a (2 ^ suc k) ≡ bit_and (a / 2) (2 ^ k) * 2 =
      rw (bit_and_step a (2 ^ suc k), h) (omega (arith, p)) in
    omega (arith, s, e, ap (λ (t : ℕ). test_bit (a / 2) k * t) p)

-- A property of the words below a bound, decided by running it on each of them.
unfoldable pub all_below : ℕ → (ℕ → Bool) → Bool
all_below zero test = true
all_below (suc top) test = test top && all_below top test

pub all_below_sound :
    (top : ℕ) (test : ℕ → Bool) (w : ℕ) → all_below top test ≡ true → w < top → test w ≡ true
unfolding all_below
all_below_sound zero test w run below = absurd (omega arith)
all_below_sound (suc top) test w run below =
    let earlier = all_below_sound top test w in ground arith

-- Bits side by side: `or` is a sum.
pub bit_or-add : (k a b : ℕ) → a < 2 ^ k → bit_or a (b * 2 ^ k) ≡ a + b * 2 ^ k
bit_or-add zero a b h =
    let z : a ≡ 0 = omega arith in rw (z, bit_or-bitwise 0 (b * 2 ^ 0)) (omega arith)
bit_or-add (suc k) a b h =
    let p = pow-suc 2 k in
    let double : b * 2 ^ suc k ≡ b * 2 ^ k * 2 = rw p (omega (arith, ap (λ (t : ℕ). b * t) p)) in
    let half : b * 2 ^ suc k / 2 ≡ b * 2 ^ k = omega (arith, double) in
    let ih = bit_or-add k (a / 2) b (omega (arith, p)) in
    let s = bit_or_step a (b * 2 ^ suc k) in
    let top : bit_or (a / 2) (b * 2 ^ suc k / 2) ≡ a / 2 + b * 2 ^ k = rw half ih in
    omega (arith, s, top, double)
