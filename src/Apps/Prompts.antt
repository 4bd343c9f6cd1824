-- ===== src/Apps/Prompts.antt =====
-- src/apps/hello.c, calc.c and clear.c: prompts over the console.
use sojebos.Apps.{World, show, read_line}
use sojebos.Apps.Texts.{
  hello_title, hello_help, you_typed, line_end, calculator_title, calculator_help,
}
use sojebos.Calc.{evaluate, show_result}
use sojebos.Common.{ℕ, zero, suc, Bool, ◌&&◌, Option, some, none, List, get_or, ◌==◌, if◌then◌else◌}
use sojebos.Console.{console_clear}
use sojebos.Strings.{c_string}

-- `input[0] == 'e' && ... && input[3] == 't'`
abbrev pub begins_with_exit : List ℕ → Bool
begins_with_exit input =
    (get_or input 0 0 == b'e')
    && ((get_or input 1 0 == b'x') && ((get_or input 2 0 == b'i') && (get_or input 3 0 == b't')))

-- `rounds` bounds the lines that are read; `none`: there are more, or the keyboard has no line left
-- and the program waits.
unfoldable pub hello_lines : ℕ → List ℕ → World → Option World
hello_lines zero input w = none
hello_lines (suc rounds) input w = elim (read_line input w) [
  | none ↦ none
  | some r ↦
      let rest =
        hello_lines rounds r.0 (show line_end (show (c_string r.0) (show you_typed r.1))) in
      if begins_with_exit r.0 then some r.1 else rest
]

-- `input` is what stands in the buffer before.
unfoldable pub hello_app : ℕ → List ℕ → World → Option World
hello_app rounds input w = hello_lines rounds input (show hello_help (show hello_title w))

unfoldable pub calculator_lines : ℕ → List ℕ → World → Option World
calculator_lines zero input w = none
calculator_lines (suc rounds) input w = elim (read_line input w) [
  | none ↦ none
  | some r ↦
      let shown = record r.1 { console = show_result (evaluate (c_string r.0)) r.1.console } in
      let rest = calculator_lines rounds r.0 shown in
      if begins_with_exit r.0 then some r.1 else rest
]

unfoldable pub calculator_app : ℕ → List ℕ → World → Option World
calculator_app rounds input w =
    calculator_lines rounds input (show calculator_help (show calculator_title w))

unfoldable pub clear_app : World → World
clear_app w = record w { console = console_clear w.console }
