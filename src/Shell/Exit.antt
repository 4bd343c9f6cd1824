-- ===== src/Shell/Exit.antt =====
-- Sessions at the prompt, and that the shell carries them out.
use sojebos.Apps.{World, poll}
use sojebos.Apps.Registered.{App}
use sojebos.Common.{
  ℕ, zero, suc, ◌+◌, ◌<◌, ◌≡◌, refl, ◌∙◌, arith, some, none, true, false, ltb, if◌then◌else◌, List,
  ◌∷◌, ◌++◌, length, length-set, set, drop, take,
}
use sojebos.Shell.{command_of, tokenize, skip_spaces, find_end}
use sojebos.Shell.Lines.{IsTyped, after_typed, next_line-typed}
use sojebos.Shell.Run.{Ended, again, ended, Frame, perform, shell_run}
use sojebos.Shell.Words.{words}

-- A session from a machine to an end: each line is typed, and is run as its first ten words.
pub data Session (f : Frame) (apps : List (List ℕ × App)) : World → Ended → Type 0 where
  last :
      {w : World} {e : Ended} (line rest : List ℕ) (w1 : World)
      → IsTyped line
      → length line < 64
      → poll w ≡ some w1
      → w1.input ≡ line ++ 10 ∷ rest
      → perform f (command_of apps (take 10 (words line))) (after_typed line rest w1)
        ≡ some (ended e)
      → Session f apps w e
  one_more :
      {w : World} {e : Ended} (line rest : List ℕ) (w1 w2 : World)
      → IsTyped line
      → length line < 64
      → poll w ≡ some w1
      → w1.input ≡ line ++ 10 ∷ rest
      → perform f (command_of apps (take 10 (words line))) (after_typed line rest w1)
        ≡ some (again w2)
      → Session f apps w2 e
      → Session f apps w e

length-tokenize :
    (n : ℕ) (input : List ℕ) (ptr : ℕ) → length (tokenize n input ptr).0 ≡ length input
unfolding tokenize
length-tokenize zero input ptr = refl
length-tokenize (suc n) input ptr =
    let start = skip_spaces (drop ptr input) ptr in
    let end = find_end (drop start input) start in
    ground (
      arith,
      length-tokenize n input end,
      length-tokenize n (set input end 0) (end + 1),
      length-set input end 0,
    )

-- The lines of a session
unfoldable pub rounds :
    {f : Frame} {apps : List (List ℕ × App)} {w : World} {e : Ended} → Session f apps w e → ℕ
rounds (last line rest w1 h short polled keys runs) = 1
rounds (one_more line rest w1 w2 h short polled keys runs more) = suc (rounds more)

-- A session gives for each line the machine that the poll before it leaves, and the one that its
-- command leaves. The shell goes through a session in as many rounds as it has lines, and returns what
-- the last command ends in; with fewer rounds it has not returned. The shell's buffer has its 64 bytes; a
-- line has fewer characters than that, none of them a zero, a newline or a backspace.
pub shell_run-Session :
    (f : Frame) (apps : List (List ℕ × App)) (input : List ℕ) (w : World) (e : Ended)
    → length input ≡ 64
    → (session : Session f apps w e) → (n : ℕ)
    → shell_run f apps n input w ≡ (if ltb n (rounds session) then none else some e)
unfolding shell_run rounds
shell_run-Session f apps input w e size (last line rest w1 h short polled keys runs) zero = refl
shell_run-Session f apps input w e size (last line rest w1 h short polled keys runs) (suc n) =
    let (buffer, next, len, args) = next_line-typed input line rest w w1 size h short polled keys in
    let enough : ltb (suc n) 1 ≡ false = ground arith in
    rw (next, shell_run, args, runs, enough) refl
shell_run-Session f apps input w e size (one_more line rest w1 w2 h short polled keys runs more)
      zero =
    let few : ltb zero (suc (rounds more)) ≡ true = ground arith in rw few refl
shell_run-Session f apps input w e size (one_more line rest w1 w2 h short polled keys runs more)
      (suc n) =
    let (buffer, next, len, args) = next_line-typed input line rest w w1 size h short polled keys in
    let later =
      shell_run-Session f apps (tokenize 10 buffer 0).0 w2 e (length-tokenize 10 buffer 0 ∙ len)
        more n in
    let same : ltb (suc n) (suc (rounds more)) ≡ ltb n (rounds more) = ground arith in
    rw (next, shell_run, args, runs, same) later
