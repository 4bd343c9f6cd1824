-- ===== src/Calc.antt =====
-- src/apps/calc.c: one line of the calculator, two numbers with an operator between them.
--
-- A line is the list of its bytes before the zero. `int` has 32 bits, and the numbers that `atoi`
-- gives are divided as signed ones.
pub mod Lines
mod Tests
use sojebos.Common.{
  ℕ, ◌+◌, ◌-◌, ◌*◌, ◌/◌, ◌^◌, List, [], ◌∷◌, ◌==◌, ltb, if◌then◌else◌, u32, sub32, drop, get_or,
}
use sojebos.Console.{Console, console_putchar, console_print}
use sojebos.Console.Printf.{print_number}
use sojebos.Strings.{atoi, is_digit}

-- What the line has behind its first digits
unfoldable pub skip_digits : List ℕ → List ℕ
skip_digits [] = []
skip_digits (c ∷ s) = let rest = skip_digits s in if is_digit c then rest else c ∷ s

-- `-x`, and `a / b` of signed numbers, rounded towards 0
unfoldable pub negated : ℕ → ℕ
negated x = sub32 0 x

unfoldable pub divided : ℕ → ℕ → ℕ
divided a b =
    let natural_a = ltb a (2 ^ 31) in
    let natural_b = ltb b (2 ^ 31) in
    let both = (if natural_a then a else negated a) / (if natural_b then b else negated b) in
    if natural_a
    then if natural_b then both else negated both
    else if natural_b
    then negated both
    else u32 both

unfoldable pub apply_op : ℕ → ℕ → ℕ → ℕ
apply_op op a b =
    if op == b'+'
    then u32 (a + b)
    else if op == b'-'
    then sub32 a b
    else if op == b'*'
    then u32 (a * b)
    else if op == b'/'
    then if b == 0 then 0 else divided a b
    else 0

-- Without an operator the C code reads on behind the terminating zero.
unfoldable pub evaluate : List ℕ → ℕ
evaluate input =
    let rest = skip_digits input in apply_op (get_or rest 0 0) (atoi input) (atoi (drop 1 rest))

-- `= `, the number and two line ends. The digit loops are those of `console_printf`.
unfoldable pub show_result : ℕ → Console → Console
show_result result con =
    console_print (b'\n' ∷ b'\n' ∷ []) (print_number result (console_print (b'=' ∷ b' ' ∷ []) con))
