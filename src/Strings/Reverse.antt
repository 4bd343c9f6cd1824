-- ===== src/Strings/Reverse.antt =====
-- The exchange of the characters from both ends reverses a string.
use mathlib.Core.List.{reverse, reverse-cons, reverse-append, append_assoc, append-nil}
use mathlib.Core.Path.{subst}
use sojebos.Common.{ℕ, zero, suc, ◌+◌, ◌-◌, ◌≤◌, ◌≡◌, refl, sym, ap, ◌∙◌, arith, true}
use sojebos.Common.{List, [], ◌∷◌, ◌++◌, length, get_or, set, ltb, length-append, lt→ltb, le→ltb}
use sojebos.Strings.{swap_ends}

pub get-at :
    (xs : List ℕ) (x : ℕ) (ys : List ℕ) (k : ℕ) → k ≡ length xs → get_or (xs ++ x ∷ ys) k 0 ≡ x
get-at [] x ys k e = rw e refl
get-at (w ∷ xs) x ys k e = rw e (get-at xs x ys (length xs) refl)

pub set-at :
    (xs : List ℕ) (x : ℕ) (ys : List ℕ) (k v : ℕ)
    → k ≡ length xs
    → set (xs ++ x ∷ ys) k v ≡ xs ++ v ∷ ys
set-at [] x ys k v e = rw e refl
set-at (w ∷ xs) x ys k v e = rw e (ap (λ t. w ∷ t) (set-at xs x ys (length xs) v refl))

-- A list that is not empty has a last element.
last_of : (x : ℕ) (xs : List ℕ) → (init : List ℕ) × (last : ℕ) × (x ∷ xs ≡ init ++ last ∷ [])
last_of x [] = ([], x, refl)
last_of x (y ∷ ys) = let (init, last, e) = last_of y ys in (x ∷ init, last, ap (λ t. x ∷ t) e)

swap_ends-stop :
    (fuel start end : ℕ) (str : List ℕ) → end ≤ start → swap_ends fuel start end str ≡ str
unfolding swap_ends
swap_ends-stop zero start end str h = refl
swap_ends-stop (suc fuel) start end str h = rw (le→ltb start end h) refl

reverse_ends :
    (x z : ℕ) (m after : List ℕ)
    → reverse (x ∷ (m ++ z ∷ [])) ++ after ≡ z ∷ (reverse m ++ x ∷ after)
reverse_ends x z m after = simp (reverse-cons, reverse-append, append_assoc)

-- One round: the first and the last character change places.
swap_ends_round :
    (fuel : ℕ) (before : List ℕ) (x z : ℕ) (m after : List ℕ) (start end : ℕ)
    → start ≡ length before
    → end ≡ length before + 1 + length m
    → swap_ends (suc fuel) start end (before ++ (x ∷ (m ++ (z ∷ after))))
      ≡ swap_ends fuel (start + 1) (end - 1) ((before ++ z ∷ []) ++ (m ++ (x ∷ after)))
unfolding swap_ends
swap_ends_round fuel before x z m after start end s e =
    let less : ltb start end ≡ true = lt→ltb start end (omega arith) in
    let apart : before ++ (x ∷ (m ++ (z ∷ after))) ≡ (before ++ (x ∷ m)) ++ (z ∷ after) =
      sym (append_assoc before (x ∷ m) (z ∷ after)) in
    let first = get-at before x (m ++ (z ∷ after)) start s in
    let last : get_or (before ++ (x ∷ (m ++ (z ∷ after)))) end 0 ≡ z =
      rw apart
        (get-at (before ++ (x ∷ m)) z after end (omega (arith, length-append before (x ∷ m)))) in
    let once = set-at before x (m ++ (z ∷ after)) start z s in
    let twice : set (before ++ (z ∷ (m ++ (z ∷ after)))) end x
        ≡ before ++ (z ∷ (m ++ (x ∷ after))) =
      rw (sym (append_assoc before (z ∷ m) (z ∷ after))) (
        set-at (before ++ (z ∷ m)) z after end x (omega (arith, length-append before (z ∷ m)))
        ∙ append_assoc before (z ∷ m) (x ∷ after)) in
    rw (less, first, last, once, twice) (rw (append_assoc before (z ∷ []) (m ++ (x ∷ after))) refl)

-- With `before` and `after` left alone, what lies between is reversed.
swap_ends-reverse :
    (fuel : ℕ) (before middle after : List ℕ) (start end : ℕ)
    → length middle ≤ fuel
    → start ≡ length before
    → end + 1 ≡ length before + length middle
    → swap_ends fuel start end (before ++ (middle ++ after)) ≡ before ++ (reverse middle ++ after)
swap_ends-reverse fuel before [] after start end le s e =
    swap_ends-stop fuel start end _ (omega arith)
swap_ends-reverse zero before (x ∷ xs) after start end le s e = absurd (omega arith)
swap_ends-reverse (suc fuel) before (x ∷ []) after start end le s e =
    swap_ends-stop (suc fuel) start end _ (omega arith)
swap_ends-reverse (suc fuel) before (x ∷ y ∷ ys) after start end le s e =
    let (m, z, is_last) = last_of y ys in
    let size : length (y ∷ ys) ≡ length m + 1 = ap length is_last ∙ length-append m (z ∷ []) in
    let ih =
      swap_ends-reverse fuel (before ++ z ∷ []) m (x ∷ after) (start + 1) (end - 1)
        (omega (arith, size)) (omega (arith, length-append before (z ∷ [])))
        (omega (arith, size, length-append before (z ∷ []))) in
    subst
      (λ w.
        swap_ends (suc fuel) start end (before ++ ((x ∷ w) ++ after))
        ≡ before ++ (reverse (x ∷ w) ++ after))
      (sym is_last)
      (ap (λ t. swap_ends (suc fuel) start end (before ++ (x ∷ t))) (append_assoc m (z ∷ []) after)
        ∙ swap_ends_round fuel before x z m after start end s (omega (arith, size))
        ∙ ih
        ∙ append_assoc before (z ∷ []) (reverse m ++ (x ∷ after))
        ∙ ap (λ t. before ++ t) (sym (reverse_ends x z m after)))

-- The whole string.
pub swap_ends_all : (str : List ℕ) → swap_ends (length str) 0 (length str - 1) str ≡ reverse str
swap_ends_all [] = swap_ends-stop 0 0 0 [] (omega arith)
swap_ends_all (c ∷ str) =
    ap (swap_ends (length (c ∷ str)) 0 (length (c ∷ str) - 1)) (sym (append-nil (c ∷ str)))
    ∙ swap_ends-reverse (length (c ∷ str)) [] (c ∷ str) [] 0 (length (c ∷ str) - 1) (omega arith)
        refl (omega arith)
    ∙ append-nil (reverse (c ∷ str))
