-- ===== src/Shell/Tests.antt =====
-- Examples: lines of commands.
use sojebos.Common.{ℕ, ◌≡◌, refl, arith, List, [], ◌∷◌, ◌++◌, take}
use sojebos.HashTable.{same_string}
use sojebos.Shell.{app, arguments, find_app, command_of}
use sojebos.Apps.{World, show, poll}
use sojebos.Apps.Registered.{register_all_apps, register_app, run_app}
use sojebos.Apps.Prompts.{clear_app}
use sojebos.Apps.Tests.{desk}
use sojebos.Apps.Texts.{exit_word, farewell}
use sojebos.Common.{true, some, replicate}
use sojebos.Shell.Exit.{last, one_more, rounds, shell_run-Session}
use sojebos.Shell.Lines.{after_typed}
use sojebos.Shell.Run.{exited, again, ended, Frame, perform, shell_run}
use sojebos.Shell.Arguments.{arguments-words}
use sojebos.Shell.Words.{words, IsText, starts_word, push}

-- "  ls a "
abbrev some_line : List ℕ
some_line = b' ' ∷ b' ' ∷ b'l' ∷ b's' ∷ b' ' ∷ b'a' ∷ b' ' ∷ []

some_line-IsText : IsText some_line
some_line-IsText = (
  (λ e. absurd (omega (arith, e))),
  (
    (λ e. absurd (omega (arith, e))),
    (
      (λ e. absurd (omega (arith, e))),
      (
        (λ e. absurd (omega (arith, e))),
        (
          (λ e. absurd (omega (arith, e))),
          ((λ e. absurd (omega (arith, e))), ((λ e. absurd (omega (arith, e))), tt)),
        ),
      ),
    ),
  ),
)

arguments-words_example : arguments (some_line ++ 0 ∷ b'x' ∷ []) ≡ take 10 (words some_line)
arguments-words_example = arguments-words some_line (b'x' ∷ []) some_line-IsText

some_words : words some_line ≡ (b'l' ∷ b's' ∷ []) ∷ (b'a' ∷ []) ∷ []
unfolding words starts_word push
some_words = refl

abbrev apps : List (List ℕ × ℕ)
apps = ((b'l' ∷ b's' ∷ []), 7) ∷ []

some_command : command_of apps (words some_line) ≡ app 7 ((b'l' ∷ b's' ∷ []) ∷ (b'a' ∷ []) ∷ [])
unfolding command_of find_app same_string words starts_word push
some_command = refl

abbrev frame : Frame
frame = record {
  fuel = 9;
  rounds = 9;
  input = replicate 64 0;
  address = 0;
  points = record { items = 0; size = 0; capacity = 0; element_size = 0 };
  header = [];
  program_headers = λ i. [];
}

abbrev clear_word : List ℕ
clear_word = b'c' ∷ b'l' ∷ b'e' ∷ b'a' ∷ b'r' ∷ []

-- `clear`, then `exit`
abbrev keys : List ℕ
keys = clear_word ++ 10 ∷ exit_word ++ 10 ∷ []

quiet : poll (desk keys) ≡ some (desk keys)
unfolding poll
quiet = refl

abbrev cleared : World
cleared = clear_app (after_typed clear_word (exit_word ++ 10 ∷ []) (desk keys))

clear_runs :
    perform frame
      (command_of (register_all_apps true) (take 10 (words clear_word)))
      (after_typed clear_word (exit_word ++ 10 ∷ []) (desk keys))
    ≡ some (again cleared)
unfolding perform command_of find_app same_string words starts_word push register_all_apps
    register_app run_app
clear_runs = refl

exit_runs :
    perform frame
      (command_of (register_all_apps true) (take 10 (words exit_word)))
      (after_typed exit_word [] cleared)
    ≡ some (ended (exited (show farewell (after_typed exit_word [] cleared))))
unfolding perform command_of find_app same_string words starts_word push
exit_runs = refl

cleared_keys : cleared.input ≡ exit_word ++ 10 ∷ []
unfolding clear_app
cleared_keys = refl

cleared_quiet : poll cleared ≡ some cleared
unfolding clear_app poll
cleared_quiet = refl

shell_run-Session_example :
    shell_run frame (register_all_apps true) 2 (replicate 64 1) (desk keys)
    ≡ some (exited (show farewell (after_typed exit_word [] cleared)))
unfolding rounds
shell_run-Session_example =
    shell_run-Session frame (register_all_apps true) (replicate 64 1) (desk keys)
      (exited (show farewell (after_typed exit_word [] cleared))) refl
      (one_more clear_word (exit_word ++ 10 ∷ []) (desk keys) cleared (ground arith) (omega arith)
        quiet refl clear_runs
        (last exit_word [] cleared (ground arith) (omega arith) cleared_quiet cleared_keys
          exit_runs))
      2
