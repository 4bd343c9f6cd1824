-- ===== src/Console.antt =====
-- src/kernel/drivers/console.c: the screen, and the line that the keyboard types.
--
-- The screen is a list of cells. A `char` of 128 or more is negative in C and fills the cell's upper
-- byte with ones. The scancodes that the keyboard will send are a list.
pub mod Screen
pub mod ReadLine
pub mod Printf
pub mod Format
pub mod Keyboard
mod Tests
use sojebos.Common.{ℕ, zero, suc, ◌+◌, ◌-◌, ◌*◌, ◌/◌, ◌%◌, Bool, true, false, ◌&&◌, ◌||◌, not}
use sojebos.Common.{Option, none, some, List, [], ◌∷◌, length, get_or, set}
use sojebos.Common.{ltb, leb, ◌==◌, if◌then◌else◌}

abbrev pub console_width : ℕ
console_width = 80

abbrev pub console_height : ℕ
console_height = 25

pub record Console : Type 0 where
  pub cursor : ℕ
  pub video : List ℕ

-- `(WHITE_ON_BLACK << 8) | c`, in 16 bits
unfoldable pub cell : ℕ → ℕ
cell c = if ltb c 128 then 0x0F00 + c else 0xFF00 + c

-- `scroll_up`: `n` cells from cell `i`, each from the line below
unfoldable pub move_cells : ℕ → ℕ → List ℕ → List ℕ
move_cells zero i video = video
move_cells (suc n) i video = move_cells n (i + 1) (set video i (get_or video (i + console_width) 0))

-- `scroll_up`: `n` cells from cell `i` made blank
unfoldable pub blank_cells : ℕ → ℕ → List ℕ → List ℕ
blank_cells zero i video = video
blank_cells (suc n) i video = blank_cells n (i + 1) (set video i (cell 32))

unfoldable pub scroll_up : List ℕ → List ℕ
scroll_up video =
    blank_cells console_width ((console_height - 1) * console_width)
      (move_cells ((console_height - 1) * console_width) 0 video)

-- The first part of `console_putchar`
unfoldable pub place : ℕ → Console → Console
place c con =
    if c == 10
    then record con { cursor = con.cursor + (console_width - con.cursor % console_width) }
    else if c == 8
    then if ltb 0 con.cursor
      then record { cursor = con.cursor - 1; video = set con.video (con.cursor - 1) (cell 32) }
      else con
    else record { cursor = con.cursor + 1; video = set con.video con.cursor (cell c) }

-- The second part: scroll if the cursor is behind the last line.
unfoldable pub scroll : Console → Console
scroll con =
    if leb (console_width * console_height) con.cursor
    then record { cursor = con.cursor - console_width; video = scroll_up con.video }
    else con

unfoldable pub console_putchar : ℕ → Console → Console
console_putchar c con = scroll (place c con)

unfoldable pub console_print : List ℕ → Console → Console
console_print [] con = con
console_print (c ∷ str) con = if c == 0 then con else console_print str (console_putchar c con)

unfoldable pub console_clear : Console → Console
console_clear con = record {
  cursor = 0;
  video = blank_cells (console_width * console_height) 0 con.video;
}

pub record Line : Type 0 where
  pub buffer : List ℕ
  pub console : Console

-- `console_read_line` on the characters that `console_get_char` will return. `none`: they end
-- without a newline, and the loop waits; or the C code writes outside of the buffer.
unfoldable pub console_read_line : ℕ → ℕ → List ℕ → Line → Option Line
console_read_line max_len idx [] line = none
console_read_line max_len idx (c ∷ input) line =
    let shown = record line { console = console_putchar c line.console } in
    let back = console_read_line max_len (idx - 1) input shown in
    let same = console_read_line max_len idx input line in
    let more =
      console_read_line max_len (idx + 1) input (record shown { buffer = set line.buffer idx c }) in
    if c == 10
    then if ltb idx (length line.buffer)
      then some (record shown { buffer = set line.buffer idx 0 })
      else none
    else if c == 8
    then if ltb 0 idx then back else same
    else if ltb idx (max_len - 1)
    then if ltb idx (length line.buffer) then more else none
    else same
