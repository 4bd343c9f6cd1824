-- ===== src/Shell.antt =====
-- src/kernel/shell/shell.c: the line is cut into arguments, and the command is looked up.
--
-- `input` is the buffer of the line, with its terminating zero and what stands behind it; a pointer
-- into it is an index. The words are cut by zeros that are written over spaces.
pub mod Words
pub mod Rounds
pub mod Arguments
pub mod Run
pub mod Lines
pub mod Exit
mod Tests
use sojebos.Common.{
  ℕ, zero, suc, ◌+◌, ◌||◌, Option, some, none, List, [], ◌∷◌, get_or, set, drop, map, ◌==◌,
  if◌then◌else◌,
}
use sojebos.HashTable.{same_string}
use sojebos.Strings.{c_string}

-- `while (*ptr == ' ') ptr++`, over what the buffer has from `ptr` on
unfoldable pub skip_spaces : List ℕ → ℕ → ℕ
skip_spaces [] ptr = ptr
skip_spaces (c ∷ rest) ptr = let on = skip_spaces rest (ptr + 1) in if c == b' ' then on else ptr

-- `while (*ptr != ' ' && *ptr != '\0') ptr++`
unfoldable pub find_end : List ℕ → ℕ → ℕ
find_end [] ptr = ptr
find_end (c ∷ rest) ptr =
    let on = find_end rest (ptr + 1) in if (c == b' ') || (c == 0) then ptr else on

-- The tokens found with room for `n` more: the buffer, and the pointers of `argv`.
unfoldable pub tokenize : ℕ → List ℕ → ℕ → List ℕ × List ℕ
tokenize zero input ptr = (input, [])
tokenize (suc n) input ptr =
    let start = skip_spaces (drop ptr input) ptr in
    let end = find_end (drop start input) start in
    let last = tokenize n input end in
    let more = tokenize n (set input end 0) (end + 1) in
    if get_or input ptr 0 == 0
    then (input, [])
    else if get_or input start 0 == 0
    then (input, [])
    else if get_or input end 0 == 0
    then (last.0, start ∷ last.1)
    else (more.0, start ∷ more.1)

-- The strings that `argv` points to
unfoldable pub arguments : List ℕ → List (List ℕ)
arguments input = let r = tokenize 10 input 0 in map (λ p. c_string (drop p r.0)) r.1

-- What a line is for: nothing, the end of the shell, an app, or else a program of that name.
pub data Command (F : Type 0) : Type 0 where
  empty : Command F
  exit : Command F
  app : F → List (List ℕ) → Command F
  program : List ℕ → Command F

-- `apps_vector`, as names and functions; an element is never NULL.
unfoldable pub find_app : {F : Type 0} → List (List ℕ × F) → List ℕ → Option F
find_app [] name = none
find_app (a ∷ apps) name = if same_string name a.0 then some a.1 else find_app apps name

unfoldable pub command_of : {F : Type 0} → List (List ℕ × F) → List (List ℕ) → Command F
command_of apps [] = empty
command_of apps (name ∷ args) =
    let named : Command _ = elim (find_app apps name) [
      | none ↦ program name
      | some f ↦ app f (name ∷ args)
    ] in
    if same_string name (b'e' ∷ b'x' ∷ b'i' ∷ b't' ∷ []) then exit else named
