-- ===== src/Apps.antt =====
-- src/apps: the programs that the shell runs, and the whole machine that they work on.
--
-- The machine is the screen, the characters that the keyboard will send, the heap with the file
-- system, the page tables and the memory of programs, and the network card. What the card has received
-- at each call of `rtl8139_poll` is a list: how many packets it shows, and its receive buffer. What
-- the file system prints is put on the screen when its operation returns.
pub mod Texts
pub mod Coreutils
pub mod Prompts
pub mod Ping
pub mod Sent
pub mod Points
pub mod Registered
pub mod Tests
use sojebos.Common.{
  ℕ, zero, suc, Option, some, none, List, [], ◌∷◌, drop, length, ◌==◌, if◌then◌else◌,
}
use sojebos.Console.{Console, Line, console_putchar, console_print, console_read_line}
use sojebos.Fat32.{State}
use sojebos.Net.{Net}
use sojebos.Process.{System}
use sojebos.Rtl8139.{Card, transmit, rtl8139_poll}

-- The heap is the one of `system`; the field `blocks` of `net` is of no account.
pub record World : Type 0 where
  pub console : Console
  pub input : List ℕ
  pub system : System
  pub net : Net
  pub card : Card
  pub arrivals : List (ℕ × List ℕ)

-- `console_print` of a text
abbrev pub show : List ℕ → World → World
show text w = record w { console = console_print text w.console }

unfoldable pub put_text : List ℕ → Console → Console
put_text [] con = con
put_text (c ∷ text) con = put_text text (console_putchar c con)

-- An operation of the file system
unfoldable pub on_files : (State → Option State) → World → Option World
on_files op w = elim (op (record w.system.machine.files { console = [] })) [
  | none ↦ none
  | some st ↦ some (record w {
    console = put_text st.console w.console;
    system = record w.system {
      machine = record w.system.machine { files = record st { console = [] } };
    };
  })
]

-- The network stack with the heap, and back
abbrev pub net_of : World → Net
net_of w = record w.net { blocks = w.system.machine.blocks }

abbrev pub with_net : Net → World → World
with_net net w = record w {
  net = net;
  system = record w.system { machine = record w.system.machine { blocks = net.blocks } };
}

-- The same after a call that sends frames through the card
abbrev pub with_sent : Net → World → World
with_sent net w =
    with_net net (record w { card = transmit (drop (length w.net.sent) net.sent) w.card })

-- One call of `rtl8139_poll`
unfoldable pub poll : World → Option World
poll w = elim w.arrivals [
  | [] ↦ some w
  | p ∷ later ↦ elim (rtl8139_poll p.0 (record w.card { rx_buffer = p.1 }) (net_of w)) [
    | none ↦ none
    | some r ↦ some (with_net r.1 (record w { card = r.0; arrivals = later }))
  ]
]

unfoldable pub polls : ℕ → World → Option World
polls zero w = some w
polls (suc n) w = elim (poll w) [ none ↦ none | some w' ↦ polls n w' ]

-- What the keyboard sends behind the first newline
unfoldable pub after_newline : List ℕ → List ℕ
after_newline [] = []
after_newline (c ∷ input) = let rest = after_newline input in if c == 10 then input else rest

-- `console_read_line(input, 64)` on a buffer of a program
unfoldable pub read_line : List ℕ → World → Option (List ℕ × World)
read_line buffer w =
    elim (console_read_line 64 0 w.input (record { buffer = buffer; console = w.console })) [
      | none ↦ none
      | some line ↦
          some (line.buffer, record w { console = line.console; input = after_newline w.input })
    ]
