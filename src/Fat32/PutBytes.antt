-- ===== src/Fat32/PutBytes.antt =====
-- The bytes of a buffer after `put_bytes` and `put_u16`, and lists with the same bytes.
use sojebos.Common.{
  ℕ, zero, suc, ◌+◌, ◌/◌, ◌%◌, ◌^◌, ◌≤◌, ◌<◌, ◌≡◌, refl, ap, ◌∙◌, ◌⊎◌, inl, arith, List, [], ◌∷◌,
  length, length-set, get_or, get_or-set_self, get_or-set_ne, set, take, drop,
}
use sojebos.Disk.Fields.{get_u16, get_u32, put_u16}
use sojebos.Fat32.Entry.{put_bytes}

pub length-put_bytes : (b : List ℕ) (o : ℕ) (cs : List ℕ) → length (put_bytes b o cs) ≡ length b
unfolding put_bytes
length-put_bytes b o [] = refl
length-put_bytes b o (c ∷ cs) = length-put_bytes (set b o c) (o + 1) cs ∙ length-set b o c

pub get_or-put_bytes_ne :
    (b : List ℕ) (o : ℕ) (cs : List ℕ) (k : ℕ)
    → (k < o) ⊎ (o + length cs ≤ k)
    → get_or (put_bytes b o cs) k 0 ≡ get_or b k 0
unfolding put_bytes
get_or-put_bytes_ne b o [] k out = refl
get_or-put_bytes_ne b o (c ∷ cs) k out =
    get_or-put_bytes_ne (set b o c) (o + 1) cs k (omega arith)
    ∙ get_or-set_ne b o k c 0 (omega arith)

pub get_or-put_bytes :
    (b : List ℕ) (o : ℕ) (cs : List ℕ) (j : ℕ)
    → o + length cs ≤ length b
    → j < length cs
    → get_or (put_bytes b o cs) (o + j) 0 ≡ get_or cs j 0
unfolding put_bytes
get_or-put_bytes b o [] j fits lt = absurd (omega arith)
get_or-put_bytes b o (c ∷ cs) zero fits lt =
    let e : o + 0 ≡ o = omega arith in
    ap (λ k. get_or (put_bytes (set b o c) (o + 1) cs) k 0) e
    ∙ get_or-put_bytes_ne (set b o c) (o + 1) cs o (inl (omega arith))
    ∙ get_or-set_self b o c 0 (omega arith)
get_or-put_bytes b o (c ∷ cs) (suc j) fits lt =
    let e : o + suc j ≡ o + 1 + j = omega arith in
    ap (λ k. get_or (put_bytes (set b o c) (o + 1) cs) k 0) e
    ∙ get_or-put_bytes (set b o c) (o + 1) cs j (omega (arith, length-set b o c)) (omega arith)

pub get_or-drop : (o j : ℕ) (xs : List ℕ) → get_or (drop o xs) j 0 ≡ get_or xs (o + j) 0
get_or-drop zero j xs = ap (λ k. get_or xs k 0) (omega arith)
get_or-drop (suc o) j [] = refl
get_or-drop (suc o) j (x ∷ xs) =
    let e : suc (o + j) ≡ suc o + j = omega arith in
    get_or-drop o j xs ∙ ap (λ k. get_or (x ∷ xs) k 0) e

pub take_ext :
    (n : ℕ) (xs ys : List ℕ)
    → n ≤ length xs
    → n ≤ length ys
    → ((j : ℕ) → j < n → get_or xs j 0 ≡ get_or ys j 0)
    → take n xs ≡ take n ys
take_ext zero xs ys le le' same = refl
take_ext (suc n) [] ys le le' same = absurd (omega arith)
take_ext (suc n) (x ∷ xs) [] le le' same = absurd (omega arith)
take_ext (suc n) (x ∷ xs) (y ∷ ys) le le' same =
    ap (λ z. z ∷ take n xs) (same 0 (omega arith))
    ∙ ap (λ l. y ∷ l)
        (take_ext n xs ys (omega arith) (omega arith) (λ j lt. same (suc j) (omega arith)))

pub get_or-put_u16_ne :
    (b : List ℕ) (o v j : ℕ) → (j < o) ⊎ (o + 2 ≤ j) → get_or (put_u16 b o v) j 0 ≡ get_or b j 0
unfolding put_u16
get_or-put_u16_ne b o v j out =
    get_or-set_ne _ (o + 1) j _ 0 (omega arith) ∙ get_or-set_ne b o j _ 0 (omega arith)

pub get_u16_same :
    (b c : List ℕ) (o : ℕ)
    → ((k : ℕ) → o ≤ k → k < o + 2 → get_or b k 0 ≡ get_or c k 0)
    → get_u16 b o ≡ get_u16 c o
unfolding get_u16
get_u16_same b c o same =
    omega (arith, same o (omega arith) (omega arith), same (o + 1) (omega arith) (omega arith))

pub get_u32_same :
    (b c : List ℕ) (o : ℕ)
    → ((k : ℕ) → o ≤ k → k < o + 4 → get_or b k 0 ≡ get_or c k 0)
    → get_u32 b o ≡ get_u32 c o
unfolding get_u32
get_u32_same b c o same = omega (
  arith,
  same o (omega arith) (omega arith),
  same (o + 1) (omega arith) (omega arith),
  same (o + 2) (omega arith) (omega arith),
  same (o + 3) (omega arith) (omega arith),
)

pub get_u16-put_u16 :
    (b : List ℕ) (o v : ℕ) → o + 2 ≤ length b → v < 2 ^ 16 → get_u16 (put_u16 b o v) o ≡ v
unfolding put_u16 get_u16
get_u16-put_u16 b o v fits small =
    let b0 = set b o (v % 256) in
    let w = v / 256 % 256 in
    let low =
      get_or-set_ne b0 (o + 1) o w 0 (omega arith)
      ∙ get_or-set_self b o (v % 256) 0 (omega arith) in
    let high = get_or-set_self b0 (o + 1) w 0 (omega (arith, length-set b o (v % 256))) in
    omega (arith, low, high)
