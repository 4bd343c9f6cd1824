-- ===== src/Console/Screen.antt =====
-- The screen stays 25 lines of 80 cells, with the cursor inside.
use sojebos.Common.{ℕ, zero, suc, ◌+◌, ◌-◌, ◌<◌, ◌≤◌, ◌≡◌, ◌≢◌, refl, ◌∙◌, inl, inr, arith}
use sojebos.Common.{List, length, get_or, set, Bool-cases, false, ==_iff, ◌==◌, ltb, leb}
use sojebos.Common.{length-set, get_or-set_self, get_or-set_ne}
use sojebos.Console.{
  Console, console_width, cell, move_cells, blank_cells, scroll_up, place, scroll, console_putchar,
}

pub record IsValid (con : Console) : Type 0 where
  pub cells : length con.video ≡ 2000
  pub inside : con.cursor < 2000

length-move_cells : (n i : ℕ) (v : List ℕ) → length (move_cells n i v) ≡ length v
unfolding move_cells
length-move_cells zero i v = refl
length-move_cells (suc n) i v = length-move_cells n (i + 1) _ ∙ length-set v i _

length-blank_cells : (n i : ℕ) (v : List ℕ) → length (blank_cells n i v) ≡ length v
unfolding blank_cells
length-blank_cells zero i v = refl
length-blank_cells (suc n) i v = length-blank_cells n (i + 1) _ ∙ length-set v i _

length-scroll_up : (v : List ℕ) → length (scroll_up v) ≡ length v
unfolding scroll_up
length-scroll_up v = length-blank_cells 80 1920 _ ∙ length-move_cells 1920 0 v

move_cells-behind :
    (n i q : ℕ) (v : List ℕ) → i + n ≤ q → get_or (move_cells n i v) q 0 ≡ get_or v q 0
unfolding move_cells
move_cells-behind zero i q v h = refl
move_cells-behind (suc n) i q v h =
    move_cells-behind n (i + 1) q _ (omega (arith, h))
    ∙ get_or-set_ne v i q _ 0 (λ e. absurd (omega (arith, e, h)))

move_cells-before : (n i q : ℕ) (v : List ℕ) → q < i → get_or (move_cells n i v) q 0 ≡ get_or v q 0
unfolding move_cells
move_cells-before zero i q v h = refl
move_cells-before (suc n) i q v h =
    move_cells-before n (i + 1) q _ (omega (arith, h))
    ∙ get_or-set_ne v i q _ 0 (λ e. absurd (omega (arith, e, h)))

move_cells-from_below :
    (n i q : ℕ) (v : List ℕ)
    → i ≤ q
    → q < i + n
    → i + n ≤ length v
    → get_or (move_cells n i v) q 0 ≡ get_or v (q + 80) 0
unfolding move_cells
move_cells-from_below zero i q v ge lt h = absurd (omega (arith, ge, lt))
move_cells-from_below (suc n) i q v ge lt h = elim (Bool-cases (q == i)) [
  | inl e ↦
      let same = (==_iff q i).0 e in
      rw same
        (move_cells-before n (i + 1) i _ (omega arith) ∙ get_or-set_self v i _ 0 (omega (arith, h)))
  | inr e ↦
      move_cells-from_below n (i + 1) q _ (ground arith) (omega (arith, lt))
        (omega (arith, h, length-set v i (get_or v (i + 80) 0)))
      ∙ get_or-set_ne v i (q + 80) _ 0 (λ k. absurd (omega (arith, k, ge)))
]

blank_cells-before :
    (n i q : ℕ) (v : List ℕ) → q < i → get_or (blank_cells n i v) q 0 ≡ get_or v q 0
unfolding blank_cells
blank_cells-before zero i q v h = refl
blank_cells-before (suc n) i q v h =
    blank_cells-before n (i + 1) q _ (omega (arith, h))
    ∙ get_or-set_ne v i q _ 0 (λ e. absurd (omega (arith, e, h)))

blank_cells-blank :
    (n i q : ℕ) (v : List ℕ)
    → i ≤ q
    → q < i + n
    → i + n ≤ length v
    → get_or (blank_cells n i v) q 0 ≡ cell 32
unfolding blank_cells
blank_cells-blank zero i q v ge lt h = absurd (omega (arith, ge, lt))
blank_cells-blank (suc n) i q v ge lt h = elim (Bool-cases (q == i)) [
  | inl e ↦
      let same = (==_iff q i).0 e in
      rw same (
        blank_cells-before n (i + 1) i _ (omega arith) ∙ get_or-set_self v i _ 0 (omega (arith, h)))
  | inr e ↦
      blank_cells-blank n (i + 1) q _ (ground arith) (omega (arith, lt))
        (omega (arith, h, length-set v i (cell 32)))
]

-- Scrolling moves every line up by one and leaves the last line blank.
pub scroll_up_lem :
    (v : List ℕ)
    → length v ≡ 2000
    → ((q : ℕ) → q < 1920 → get_or (scroll_up v) q 0 ≡ get_or v (q + 80) 0)
      × ((q : ℕ) → 1920 ≤ q → q < 2000 → get_or (scroll_up v) q 0 ≡ cell 32)
unfolding scroll_up
scroll_up_lem v h = (
  λ q lt.
      blank_cells-before 80 1920 q _ lt
      ∙ move_cells-from_below 1920 0 q v (omega arith) (omega (arith, lt)) (omega (arith, h)),
  λ q ge lt.
      blank_cells-blank 80 1920 q _ ge (omega (arith, lt))
        (omega (arith, h, length-move_cells 1920 0 v)),
)

scroll-IsValid :
    (con : Console) → length con.video ≡ 2000 → con.cursor ≤ 2000 → IsValid (scroll con)
unfolding scroll
scroll-IsValid con h le = elim (Bool-cases (leb 2000 con.cursor)) [
  | inl e ↦ rw e (record { cells = length-scroll_up con.video ∙ h; inside = omega (arith, le) })
  | inr e ↦ rw e (record { cells = h; inside = ground arith })
]

place_bounds :
    (c : ℕ) (con : Console)
    → IsValid con
    → (length (place c con).video ≡ 2000) × ((place c con).cursor ≤ 2000)
unfolding place
place_bounds c con v = elim (Bool-cases (c == 10)) [
  | inl e ↦ rw e (v.cells, omega (arith, v.inside))
  | inr e ↦ elim (Bool-cases (c == 8)) [
    | inl b ↦ elim (Bool-cases (ltb 0 con.cursor)) [
      | inl z ↦ rw (e, b, z) (length-set con.video _ (cell 32) ∙ v.cells, omega (arith, v.inside))
      | inr z ↦ rw (e, b, z) (v.cells, omega (arith, v.inside))
    ]
    | inr b ↦ rw (e, b) (length-set con.video _ (cell c) ∙ v.cells, omega (arith, v.inside))
  ]
]

-- Any character leaves the cursor on the screen, and the screen with its 2000 cells.
pub console_putchar-IsValid :
    (c : ℕ) (con : Console) → IsValid con → IsValid (console_putchar c con)
unfolding console_putchar
console_putchar-IsValid c con v =
    let (cells, le) = place_bounds c con v in scroll-IsValid (place c con) cells le

-- A character other than newline and backspace stands right before the cursor afterwards, whether or
-- not the screen has scrolled.
pub console_putchar_shows :
    (c : ℕ) (con : Console)
    → IsValid con
    → c ≢ 10
    → c ≢ 8
    → (0 < (console_putchar c con).cursor)
      × (get_or (console_putchar c con).video ((console_putchar c con).cursor - 1) 0 ≡ cell c)
unfolding console_putchar place scroll
console_putchar_shows c con v nl bs =
    let n : (c == 10) ≡ false = ground arith in
    let b : (c == 8) ≡ false = ground arith in
    let here = get_or-set_self con.video con.cursor (cell c) 0 (omega (arith, v.inside, v.cells)) in
    let whole = length-set con.video con.cursor (cell c) ∙ v.cells in
    elim (Bool-cases (leb 2000 (con.cursor + 1))) [
      | inr e ↦
          rw (n, b, e)
            (omega arith, (let z : con.cursor + 1 - 1 ≡ con.cursor = omega arith in rw z here))
      | inl e ↦
          rw (n, b, e)
            (
              ground arith,
              (let last : con.cursor ≡ 1999 = ground arith in
                  let moved =
                    (scroll_up_lem (set con.video con.cursor (cell c)) whole).0
                      (con.cursor + 1 - console_width - 1) (omega arith) in
                  let z : con.cursor + 1 - console_width - 1 + 80 ≡ con.cursor =
                    omega (arith, last) in
                  moved ∙ rw z here),
            )
    ]
