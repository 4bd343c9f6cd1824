-- ===== src/Console/Tests.antt =====
-- Examples: a blank screen with the cursor on its last cell, and a line with a correction.
use sojebos.Common.{ℕ, ◌<◌, ◌≡◌, refl, ◌⊎◌, arith}
use sojebos.Common.{some, none, List, [], ◌∷◌, replicate, length-replicate}
use sojebos.Console.{Console, Line, console_putchar, console_read_line}
use sojebos.Console.Screen.{IsValid, console_putchar-IsValid}
use sojebos.Console.ReadLine.{edited, Holds, console_read_line-edited}
use sojebos.Console.Printf.{console_printf}
use sojebos.Console.Format.{
  Piece, plain, string, char, int, format_of, args_of, text_of, put_all, console_printf-text_of,
}
use sojebos.Console.Keyboard.{key_char, console_get_char}
use sojebos.Common.{true, false}

abbrev blank_screen : ℕ → Console
blank_screen at = record { cursor = at; video = replicate 2000 0x0F20 }

blank_screen-IsValid : (at : ℕ) → at < 2000 → IsValid (blank_screen at)
blank_screen-IsValid at h = record { cells = length-replicate {A = ℕ} 2000 0x0F20; inside = h }

console_putchar-IsValid_example : IsValid (console_putchar 10 (blank_screen 1999))
console_putchar-IsValid_example =
    console_putchar-IsValid 10 (blank_screen 1999) (blank_screen-IsValid 1999 (omega arith))

abbrev empty_line : Line
empty_line = record { buffer = 9 ∷ 9 ∷ 9 ∷ 9 ∷ []; console = blank_screen 0 }

console_read_line-edited_example :
    ((edited 4 [] (108 ∷ 115 ∷ 8 ∷ 112 ∷ 10 ∷ []) ≡ none)
      × (console_read_line 4 0 (108 ∷ 115 ∷ 8 ∷ 112 ∷ 10 ∷ []) empty_line ≡ none))
    ⊎ ((result : List ℕ) × (after : Line) × (edited 4 [] (108 ∷ 115 ∷ 8 ∷ 112 ∷ 10 ∷ [])
          ≡ some result)
        × (console_read_line 4 0 (108 ∷ 115 ∷ 8 ∷ 112 ∷ 10 ∷ []) empty_line ≡ some after)
        × Holds 4 result after.buffer)
console_read_line-edited_example =
    console_read_line-edited 4 (omega arith) (108 ∷ 115 ∷ 8 ∷ 112 ∷ 10 ∷ []) empty_line refl

-- Backspace takes the second letter back.
edited_run : edited 4 [] (108 ∷ 115 ∷ 8 ∷ 112 ∷ 10 ∷ []) ≡ some (108 ∷ 112 ∷ [])
unfolding edited
edited_run = refl

-- `printf("ip %d%c", 4294967289, '!')`, the number minus seven
abbrev some_pieces : List Piece
some_pieces =
    plain b'i'
    ∷ plain b'p'
    ∷ plain b' '
    ∷ int 4294967289
    ∷ char b'!'
    ∷ string (b'o' ∷ b'k' ∷ [])
    ∷ []

console_printf-text_of_example :
    console_printf (format_of some_pieces) (args_of some_pieces) (blank_screen 0)
    ≡ some (put_all (text_of some_pieces) (blank_screen 0))
console_printf-text_of_example = console_printf-text_of some_pieces (blank_screen 0) (
  ((λ e. absurd (omega (arith, e))), (λ e. absurd (omega (arith, e)))),
  (
    ((λ e. absurd (omega (arith, e))), (λ e. absurd (omega (arith, e)))),
    (
      ((λ e. absurd (omega (arith, e))), (λ e. absurd (omega (arith, e)))),
      ((omega arith, (λ e. absurd (omega (arith, e)))), (tt, (tt, tt))),
    ),
  ),
)

-- Shift, `a`, its release, release of shift, `a`
typed_run : console_get_char false (0x2A ∷ 0x1E ∷ []) ≡ some (b'A', true, [])
unfolding console_get_char key_char
typed_run = refl

released_run : console_get_char true (0x9E ∷ 0xAA ∷ 0x1E ∷ []) ≡ some (b'a', false, [])
unfolding console_get_char key_char
released_run = refl
