-- ===== src/Console/Keyboard.antt =====
-- `console_get_char`: scancodes to characters.
--
-- `get_scancode` takes the next of the scancodes that the keyboard sends, a list here.
use sojebos.Common.{ℕ, Bool, true, false, ◌||◌, Option, some, none, List, [], ◌∷◌, get_or}
use sojebos.Common.{◌==◌, ltb, leb, if◌then◌else◌}

abbrev pub scancode_map : List ℕ
scancode_map =
    0 ∷ 27 ∷ b'1' ∷ b'2' ∷ b'3' ∷ b'4' ∷ b'5' ∷ b'6' ∷ b'7' ∷ b'8' ∷ b'9' ∷ b'0' ∷ b'-' ∷ b'=' ∷ 8
    ∷ 9 ∷ b'q' ∷ b'w' ∷ b'e' ∷ b'r' ∷ b't' ∷ b'y' ∷ b'u' ∷ b'i' ∷ b'o' ∷ b'p' ∷ b'[' ∷ b']' ∷ 10 ∷ 0
    ∷ b'a' ∷ b's' ∷ b'd' ∷ b'f' ∷ b'g' ∷ b'h' ∷ b'j' ∷ b'k' ∷ b'l' ∷ b';' ∷ 39 ∷ b'`' ∷ 0 ∷ 92
    ∷ b'z' ∷ b'x' ∷ b'c' ∷ b'v' ∷ b'b' ∷ b'n' ∷ b'm' ∷ b',' ∷ b'.' ∷ b'/' ∷ 0 ∷ b'*' ∷ 0 ∷ b' ' ∷ []

abbrev pub scancode_map_shift : List ℕ
scancode_map_shift =
    0 ∷ 27 ∷ b'!' ∷ b'@' ∷ b'#' ∷ b'$' ∷ b'%' ∷ b'^' ∷ b'&' ∷ b'*' ∷ b'(' ∷ b')' ∷ b'_' ∷ b'+' ∷ 8
    ∷ 9 ∷ b'Q' ∷ b'W' ∷ b'E' ∷ b'R' ∷ b'T' ∷ b'Y' ∷ b'U' ∷ b'I' ∷ b'O' ∷ b'P' ∷ b'{' ∷ b'}' ∷ 10 ∷ 0
    ∷ b'A' ∷ b'S' ∷ b'D' ∷ b'F' ∷ b'G' ∷ b'H' ∷ b'J' ∷ b'K' ∷ b'L' ∷ b':' ∷ 34 ∷ b'~' ∷ 0 ∷ b'|'
    ∷ b'Z' ∷ b'X' ∷ b'C' ∷ b'V' ∷ b'B' ∷ b'N' ∷ b'M' ∷ b'<' ∷ b'>' ∷ b'?' ∷ 0 ∷ b'*' ∷ 0 ∷ b' ' ∷ []

-- The character of a key that is no shift key; 0 for a release or a key without one
unfoldable pub key_char : Bool → ℕ → ℕ
key_char shift_pressed sc =
    if leb 128 sc
    then 0
    else if ltb sc 58
    then get_or (if shift_pressed then scancode_map_shift else scancode_map) sc 0
    else 0

-- The character, the state of the shift key, and the scancodes left; `none` while it waits.
unfoldable pub console_get_char : Bool → List ℕ → Option (ℕ × Bool × List ℕ)
console_get_char shift_pressed [] = none
console_get_char shift_pressed (sc ∷ codes) =
    let pressed = console_get_char true codes in
    let released = console_get_char false codes in
    let rest = console_get_char shift_pressed codes in
    let c = key_char shift_pressed sc in
    if (sc == 0x2A) || (sc == 0x36)
    then pressed
    else if (sc == 0xAA) || (sc == 0xB6)
    then released
    else if c == 0
    then rest
    else some (c, shift_pressed, codes)
