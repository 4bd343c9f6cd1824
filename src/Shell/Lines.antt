-- ===== src/Shell/Lines.antt =====
-- A line that is typed at the shell's prompt is run as its words.
use mathlib.Core.List.{append_assoc, append-nil}
use mathlib.Core.Option.{some_inj, none-ne-some}
use mathlib.Core.Path.{subst}
use sojebos.Apps.{World, show, put_text, poll, after_newline, read_line}
use sojebos.Apps.Texts.{prompt}
use sojebos.Common.{
  ℕ, zero, suc, ◌+◌, ◌-◌, ◌<◌, ◌≡◌, ◌≢◌, refl, sym, ap, ◌∙◌, inl, inr, arith, true, false, some,
  List, [], ◌∷◌, ◌++◌, length, length-append, length-set, get_or, set, take, drop, ltb, All, ◌==◌,
}
use sojebos.Console.{Line, console_putchar, console_print, console_read_line}
use sojebos.Console.ReadLine.{edited, Holds, console_read_line-edited}
use sojebos.Shell.{arguments}
use sojebos.Shell.Arguments.{arguments-words}
use sojebos.Shell.Run.{next_line}
use sojebos.Shell.Words.{words}

-- No newline, no backspace, no zero
abbrev pub IsTyped : List ℕ → Type 0
IsTyped line = All (λ c. (c ≢ 0) × (c ≢ 10) × (c ≢ 8)) line

IsTyped-text : (line : List ℕ) → IsTyped line → All (λ c. c ≢ 0) line
IsTyped-text [] h = tt
IsTyped-text (c ∷ line) h = (h.0.0, IsTyped-text line h.1)

edited-typed :
    (max : ℕ) (typed line rest : List ℕ)
    → IsTyped line
    → length typed + length line < max
    → edited max typed (line ++ 10 ∷ rest) ≡ some (typed ++ line)
unfolding edited
edited-typed max typed [] rest h lt = ap some (sym (append-nil typed))
edited-typed max typed (c ∷ line) rest h lt =
    let newline : (c == 10) ≡ false = ground (arith, h.0) in
    let backspace : (c == 8) ≡ false = ground (arith, h.0) in
    let room : ltb (length typed) (max - 1) ≡ true = ground arith in
    rw (newline, backspace, room)
      (edited-typed max (typed ++ c ∷ []) line rest h.1
          (omega (arith, length-append typed (c ∷ [])))
        ∙ ap some (append_assoc typed (c ∷ []) line))

after_newline-typed : (line rest : List ℕ) → IsTyped line → after_newline (line ++ 10 ∷ rest) ≡ rest
unfolding after_newline
after_newline-typed [] rest h = refl
after_newline-typed (c ∷ line) rest h =
    let newline : (c == 10) ≡ false = ground (arith, h.0) in
    rw newline (after_newline-typed line rest h.1)

cut_at : (n : ℕ) (xs : List ℕ) → n < length xs → xs ≡ take n xs ++ get_or xs n 1 ∷ drop (n + 1) xs
cut_at n [] lt = absurd (omega arith)
cut_at zero (x ∷ xs) lt = refl
cut_at (suc n) (x ∷ xs) lt =
    let e : suc (n + 1) ≡ suc n + 1 = omega arith in
    ap (λ l. x ∷ l) (cut_at n xs (omega arith))
    ∙ ap (λ k. x ∷ (take n xs ++ get_or xs n 1 ∷ drop k (x ∷ xs))) e

-- The words of the line are what the shell finds in the buffer.
arguments-Holds :
    (line buffer : List ℕ)
    → IsTyped line
    → Holds 64 line buffer
    → arguments buffer ≡ take 10 (words line)
arguments-Holds line buffer h holds =
    let post = drop (length line + 1) buffer in
    let whole : buffer ≡ line ++ 0 ∷ post =
      cut_at (length line) buffer (omega (arith, holds.size, holds.fits))
      ∙ ap (λ l. l ++ get_or buffer (length line) 1 ∷ post) holds.text
      ∙ ap (λ c. line ++ c ∷ post) holds.end in
    ap arguments whole ∙ arguments-words line post (IsTyped-text line h)

-- What is typed is echoed, the newline too.
console_read_line-echo :
    (idx : ℕ) (line rest : List ℕ) (start : Line)
    → length start.buffer ≡ 64
    → IsTyped line
    → idx + length line < 64
    → (buffer : List ℕ) × (console_read_line 64 idx (line ++ 10 ∷ rest) start
        ≡ some (record { buffer = buffer; console = put_text (line ++ 10 ∷ []) start.console }))
unfolding console_read_line put_text
console_read_line-echo idx [] rest start size h lt =
    let inside : ltb idx (length start.buffer) ≡ true = ground arith in
    (set start.buffer idx 0, rw inside refl)
console_read_line-echo idx (c ∷ line) rest start size h lt =
    let newline : (c == 10) ≡ false = ground (arith, h.0) in
    let backspace : (c == 8) ≡ false = ground (arith, h.0) in
    let room : ltb idx (64 - 1) ≡ true = ground arith in
    let inside : ltb idx (length start.buffer) ≡ true = ground arith in
    let (buffer, read) =
      console_read_line-echo (idx + 1) line rest
        (record { buffer = set start.buffer idx c; console = console_putchar c start.console })
        (length-set start.buffer idx c ∙ size) h.1 (omega arith) in
    (buffer, rw (newline, backspace, room, inside) read)

-- The machine when a line has been typed
abbrev pub after_typed : List ℕ → List ℕ → World → World
after_typed line rest w = record w {
  console = put_text (line ++ 10 ∷ []) (console_print prompt w.console);
  input = rest;
}

read_line-step :
    (input : List ℕ) (w : World) (line : Line) (rest : List ℕ)
    → console_read_line 64 0 w.input (record { buffer = input; console = w.console }) ≡ some line
    → after_newline w.input ≡ rest
    → read_line input w ≡ some (line.buffer, record w { console = line.console; input = rest })
unfolding read_line
read_line-step input w line rest read behind = rw (read, read_line, behind) refl

read_line-typed :
    (input line rest : List ℕ) (w : World)
    → length input ≡ 64
    → IsTyped line
    → length line < 64
    → w.input ≡ line ++ 10 ∷ rest
    → (buffer : List ℕ) × (read_line input w
        ≡ some (buffer, record w { console = put_text (line ++ 10 ∷ []) w.console; input = rest }))
      × Holds 64 line buffer
unfolding read_line
read_line-typed input line rest w size h short keys =
    let start : Line = record { buffer = input; console = w.console } in
    let done = edited-typed 64 [] line rest h (omega arith) in
    let (buffer, echo) = console_read_line-echo 0 line rest start size h (omega arith) in
    elim (console_read_line-edited 64 (omega arith) (line ++ 10 ∷ rest) start size) [
      | inl (e, f) ↦ absurd (none-ne-some _ (sym e ∙ done))
      | inr (result, after, e, f, holds) ↦
          let same : result ≡ line = some_inj.0 (sym e ∙ done) in
          let same_buffer : after.buffer ≡ buffer =
            ap (λ l. l.buffer) (some_inj.0 (sym f ∙ echo)) in
          (
            buffer,
            read_line-step input w _ rest (ap (λ k. console_read_line 64 0 k start) keys ∙ echo)
                (ap after_newline keys ∙ after_newline-typed line rest h),
            subst (λ l. Holds 64 l buffer) same (subst (Holds 64 result) same_buffer holds),
          )
    ]

-- A line at the prompt: the words that it is run as, and the machine then.
pub next_line-typed :
    (input line rest : List ℕ) (w w1 : World)
    → length input ≡ 64
    → IsTyped line
    → length line < 64
    → poll w ≡ some w1
    → w1.input ≡ line ++ 10 ∷ rest
    → (buffer : List ℕ) × (next_line input w ≡ some (buffer, after_typed line rest w1))
      × (length buffer ≡ 64)
      × (arguments buffer ≡ take 10 (words line))
unfolding next_line
next_line-typed input line rest w w1 size h short polled keys =
    let (buffer, read, holds) =
      read_line-typed input line rest (show prompt w1) size h short keys in
    (buffer, rw (polled, next_line) read, holds.size, arguments-Holds line buffer h holds)
