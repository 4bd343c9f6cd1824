-- ===== src/Console/Printf.antt =====
-- `console_printf`: the format's characters, `%s`, `%c` and `%d`.
--
-- The variable arguments are a list. `none` is a call that C leaves undefined: an argument that is
-- missing or of another kind, and a format that ends in `%`, behind which the loop reads on.
use sojebos.Common.{ℕ, ◌-◌, ◌%◌, ◌^◌, Option, some, none, List, [], ◌∷◌, ◌==◌, ltb, if◌then◌else◌}
use sojebos.Console.{Console, console_putchar, console_print}
use sojebos.Strings.{digits_of}

pub data Arg : Type 0 where
  text : List ℕ → Arg
  number : ℕ → Arg

-- `while (j--) console_putchar(buf[j])`: the last digit stored comes first.
unfoldable pub put_backwards : List ℕ → Console → Console
put_backwards [] con = con
put_backwards (c ∷ buf) con = console_putchar c (put_backwards buf con)

-- `%d`: `num > 0` is false for 2 ^ 31, whose negation is itself.
unfoldable pub print_number : ℕ → Console → Console
print_number num con =
    let minus = console_putchar b'-' con in
    let absolute = 2 ^ 32 - num in
    if num == 0
    then console_putchar b'0' con
    else if ltb num (2 ^ 31)
    then put_backwards (digits_of 10 num) con
    else if ltb absolute (2 ^ 31)
    then put_backwards (digits_of 10 absolute) minus
    else minus

unfoldable pub print_text : List Arg → Console → Option (List Arg × Console)
print_text [] con = none
print_text (text s ∷ args) con = some (args, console_print s con)
print_text (number n ∷ args) con = none

unfoldable pub print_char : List Arg → Console → Option (List Arg × Console)
print_char [] con = none
print_char (text s ∷ args) con = none
print_char (number n ∷ args) con = some (args, console_putchar (n % 256) con)

unfoldable pub print_int : List Arg → Console → Option (List Arg × Console)
print_int [] con = none
print_int (text s ∷ args) con = none
print_int (number n ∷ args) con = some (args, print_number n con)

-- The character behind `%`: the arguments left, and the screen.
unfoldable pub print_arg : ℕ → List Arg → Console → Option (List Arg × Console)
print_arg c args con =
    if c == b's'
    then print_text args con
    else if c == b'c'
    then print_char args con
    else if c == b'd'
    then print_int args con
    else if c == 0
    then none
    else some (args, console_putchar c (console_putchar b'%' con))

unfoldable pub console_printf : List ℕ → List Arg → Console → Option Console
console_printf [] args con = some con
console_printf (c ∷ []) args con =
    if c == 0 then some con else if c == b'%' then none else some (console_putchar c con)
console_printf (c ∷ d ∷ fmt) args con =
    let directive : Option Console = elim (print_arg d args con) [
      | none ↦ none
      | some (left, shown) ↦ console_printf fmt left shown
    ] in
    let rest = console_printf (d ∷ fmt) args (console_putchar c con) in
    if c == 0 then some con else if c == b'%' then directive else rest
