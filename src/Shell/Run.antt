-- ===== src/Shell/Run.antt =====
-- `shell_run`: prompt, read a line, run it.
--
-- `none`: a program waits for a line that the keyboard does not send, or runs out of fuel.
use sojebos.Apps.{World, show, poll, read_line}
use sojebos.Apps.Registered.{App, run_app}
use sojebos.Apps.Texts.{prompt, farewell, unknown_command}
use sojebos.Common.{ℕ, zero, suc, Option, some, none, List}
use sojebos.Process.{Outcome, not_found, not_elf, not_executable, entered, exec_elf}
use sojebos.Shell.{Command, empty, exit, app, program, tokenize, arguments, command_of}
use sojebos.Vector.{Vector}

-- How the shell ends: by `exit`, or in a program that runs in user mode from `entry` on
pub data Ended : Type 0 where
  exited : World → Ended
  in_program : ℕ → ℕ → World → Ended

-- What a line leads to: the next one, or an end
pub data Round : Type 0 where
  again : World → Round
  ended : Ended → Round

-- What stands on the stacks of the functions that are called, and the bounds of their loops
pub record Frame : Type 0 where
  pub fuel : ℕ
  pub rounds : ℕ
  pub input : List ℕ
  pub address : ℕ
  pub points : Vector
  pub header : List ℕ
  pub program_headers : ℕ → List ℕ

-- Behind `exec_elf`
unfoldable pub after_exec : Outcome → World → Round
after_exec (entered entry stack) w = ended (in_program entry stack w)
after_exec not_found w = again (show unknown_command w)
after_exec not_elf w = again (show unknown_command w)
after_exec not_executable w = again (show unknown_command w)

unfoldable pub perform : Frame → Command App → World → Option Round
perform f empty w = some (again w)
perform f exit w = some (ended (exited (show farewell w)))
perform f (app a argv) w = elim (run_app f.fuel f.rounds f.input f.address f.points a argv w) [
  | none ↦ none
  | some w' ↦ some (again w')
]
perform f (program name) w = elim (exec_elf f.fuel f.header f.program_headers name w.system) [
  | none ↦ none
  | some r ↦ some (after_exec r.0 (record w { system = r.1 }))
]

-- Up to the line that is read: the buffer, and the machine
unfoldable pub next_line : List ℕ → World → Option (List ℕ × World)
next_line input w = elim (poll w) [ none ↦ none | some w' ↦ read_line input (show prompt w') ]

-- The loop of the shell; `input` is its buffer, in which the words are cut. `none`: more than `n` rounds.
unfoldable pub shell_run : Frame → List (List ℕ × App) → ℕ → List ℕ → World → Option Ended
shell_run f apps zero input w = none
shell_run f apps (suc n) input w = elim (next_line input w) [
  | none ↦ none
  | some r ↦ elim (perform f (command_of apps (arguments r.0)) r.1) [
    | none ↦ none
    | some (ended e) ↦ some e
    | some (again w') ↦ shell_run f apps n (tokenize 10 r.0 0).0 w'
  ]
]
