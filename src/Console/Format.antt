-- ===== src/Console/Format.antt =====
-- What `console_printf` puts on the screen, as a text.
use mathlib.Core.List.{reverse, reverse-cons}
use sojebos.Common.{ℕ, ◌-◌, ◌%◌, ◌^◌, ◌<◌, ◌≡◌, ◌≢◌, refl, sym, ap, ◌∙◌, inl, inr, arith}
use sojebos.Common.{
  true, false, some, List, [], ◌∷◌, ◌++◌, All, Bool-cases, ==_iff, ◌==◌, ltb, lt→ltb, ltb→lt,
  ltb→le,
}
use sojebos.Console.{Console, console_putchar, console_print}
use sojebos.Console.Printf.{
  Arg, text, number, put_backwards, print_number, print_text, print_char, print_int, print_arg,
  console_printf,
}
use sojebos.Strings.{c_string, digits_of, itoa}
use sojebos.Strings.Digits.{itoa-reverse, itoa_zero, itoa-negative}

abbrev pub put_all : List ℕ → Console → Console
put_all [] con = con
put_all (c ∷ s) con = put_all s (console_putchar c con)

-- A format as the pieces that it is made of, each with its argument
pub data Piece : Type 0 where
  plain : ℕ → Piece
  string : List ℕ → Piece
  char : ℕ → Piece
  int : ℕ → Piece

abbrev pub IsPiece : Piece → Type 0
IsPiece (plain c) = (c ≢ 0) × (c ≢ b'%')
IsPiece (string s) = Unit
IsPiece (char n) = Unit
IsPiece (int n) = (n < 2 ^ 32) × (n ≢ 2 ^ 31)

abbrev pub format_of : List Piece → List ℕ
format_of [] = []
format_of (plain c ∷ ps) = c ∷ format_of ps
format_of (string s ∷ ps) = b'%' ∷ b's' ∷ format_of ps
format_of (char n ∷ ps) = b'%' ∷ b'c' ∷ format_of ps
format_of (int n ∷ ps) = b'%' ∷ b'd' ∷ format_of ps

abbrev pub args_of : List Piece → List Arg
args_of [] = []
args_of (plain c ∷ ps) = args_of ps
args_of (string s ∷ ps) = text s ∷ args_of ps
args_of (char n ∷ ps) = number n ∷ args_of ps
args_of (int n ∷ ps) = number n ∷ args_of ps

abbrev pub text_of : List Piece → List ℕ
text_of [] = []
text_of (plain c ∷ ps) = c ∷ text_of ps
text_of (string s ∷ ps) = c_string s ++ text_of ps
text_of (char n ∷ ps) = (n % 256) ∷ text_of ps
text_of (int n ∷ ps) = itoa n ++ text_of ps

put_all-append : (s t : List ℕ) (con : Console) → put_all (s ++ t) con ≡ put_all t (put_all s con)
put_all-append [] t con = refl
put_all-append (c ∷ s) t con = put_all-append s t (console_putchar c con)

put_backwards-reverse :
    (buf : List ℕ) (con : Console) → put_backwards buf con ≡ put_all (reverse buf) con
unfolding put_backwards
put_backwards-reverse [] con = refl
put_backwards-reverse (c ∷ buf) con =
    ap (console_putchar c) (put_backwards-reverse buf con)
    ∙ sym (put_all-append (reverse buf) (c ∷ []) con)
    ∙ ap (λ t. put_all t con) (sym (reverse-cons c buf))

console_print-c_string :
    (s : List ℕ) (con : Console) → console_print s con ≡ put_all (c_string s) con
unfolding console_print c_string
console_print-c_string [] con = refl
console_print-c_string (c ∷ s) con = elim (Bool-cases (c == 0)) [
  | inl e ↦ rw e refl
  | inr e ↦ rw e (console_print-c_string s (console_putchar c con))
]

-- The digit loop of `console_printf` prints what `itoa` writes, but for 2 ^ 31.
pub print_number-itoa :
    (num : ℕ) (con : Console)
    → num < 2 ^ 32
    → num ≢ 2 ^ 31
    → print_number num con ≡ put_all (itoa num) con
unfolding print_number
print_number-itoa num con small ne = elim (Bool-cases (num == 0)) [
  | inl z ↦ let e : num ≡ 0 = (==_iff num 0).0 z in rw (z, e, itoa_zero) refl
  | inr z ↦ elim (Bool-cases (ltb num (2 ^ 31))) [
    | inl p ↦
        rw (z, p, itoa-reverse num (λ k. ground arith) (ltb→lt _ _ p))
          (put_backwards-reverse (digits_of 10 num) con)
    | inr p ↦
        let big = ltb→le _ _ p in
        let q : ltb (2 ^ 32 - num) (2 ^ 31) ≡ true = lt→ltb _ _ (omega (arith, big, ne)) in
        rw (z, p, q, itoa-negative num big)
          (put_backwards-reverse (digits_of 10 (2 ^ 32 - num)) (console_putchar b'-' con))
  ]
]

console_printf-plain :
    (c : ℕ) (fmt : List ℕ) (args : List Arg) (con : Console)
    → c ≢ 0
    → c ≢ b'%'
    → console_printf (c ∷ fmt) args con ≡ console_printf fmt args (console_putchar c con)
unfolding console_printf
console_printf-plain c [] args con nz np =
    let e : (c == 0) ≡ false = ground arith in
    let f : (c == b'%') ≡ false = ground arith in rw (e, f) refl
console_printf-plain c (d ∷ fmt) args con nz np =
    let e : (c == 0) ≡ false = ground arith in
    let f : (c == b'%') ≡ false = ground arith in rw (e, f) refl

-- A format of plain characters, `%s`, `%c` and `%d`, with its arguments, prints its pieces in order: a
-- string to its zero, and a number, if it is not 2 ^ 31, as `itoa` writes it.
pub console_printf-text_of :
    (ps : List Piece) (con : Console)
    → All IsPiece ps
    → console_printf (format_of ps) (args_of ps) con ≡ some (put_all (text_of ps) con)
unfolding console_printf print_arg print_text print_char print_int
console_printf-text_of [] con h = refl
console_printf-text_of (plain c ∷ ps) con h =
    console_printf-plain c (format_of ps) (args_of ps) con h.0.0 h.0.1
    ∙ console_printf-text_of ps (console_putchar c con) h.1
console_printf-text_of (string s ∷ ps) con h =
    console_printf-text_of ps (console_print s con) h.1
    ∙ ap some (
        ap (put_all (text_of ps)) (console_print-c_string s con)
        ∙ sym (put_all-append (c_string s) (text_of ps) con))
console_printf-text_of (char n ∷ ps) con h =
    console_printf-text_of ps (console_putchar (n % 256) con) h.1
console_printf-text_of (int n ∷ ps) con h =
    console_printf-text_of ps (print_number n con) h.1
    ∙ ap some (
        ap (put_all (text_of ps)) (print_number-itoa n con h.0.0 h.0.1)
        ∙ sym (put_all-append (itoa n) (text_of ps) con))
