-- ===== src/Apps/Points.antt =====
-- src/apps/test.c: a vector of three points, printed and freed.
use sojebos.Apps.{World}
use sojebos.Apps.Texts.{point_format}
use sojebos.Common.{ℕ, zero, suc, ◌+◌, ◌*◌, true, false, Option, some, none, [], ◌∷◌, ◌++◌}
use sojebos.Console.{Console}
use sojebos.Console.Printf.{number, console_printf}
use sojebos.Heap.Realloc.{Memory}
use sojebos.Net.{bytes32}
use sojebos.Process.{put_user}
use sojebos.Vector.{Vector, vector_init, vector_push_back, vector_get, vector_free}

-- The word of four bytes at an address
abbrev word_at : (ℕ → ℕ) → ℕ → ℕ
word_at bytes p = bytes p + 256 * (bytes (p + 1) + 256 * (bytes (p + 2) + 256 * bytes (p + 3)))

-- A push whose result is not looked at
abbrev pushed : ℕ → Vector → Memory → Option (Vector × Memory)
pushed element vec m = elim (vector_push_back element vec m) [
  | none ↦ none
  | some r ↦ some (r.1, r.2)
]

-- The loop over the vector, `n` elements from element `i`
unfoldable pub print_points : ℕ → ℕ → Vector → Memory → Console → Option Console
print_points zero i vec m con = some con
print_points (suc n) i vec m con = elim (vector_get vec i) [
  | none ↦ print_points n (i + 1) vec m con
  | some p ↦
      elim (console_printf point_format
        (number i ∷ number (word_at m.bytes p) ∷ number (word_at m.bytes (p + 4)) ∷ []) con) [
          | none ↦ none
          | some con' ↦ print_points n (i + 1) vec m con'
        ]
]

-- The three points, on the stack from `address` on
abbrev with_points : ℕ → World → Memory
with_points address w = record {
  blocks = w.system.machine.blocks;
  bytes =
      put_user address
        (bytes32 10 ++ bytes32 20 ++ bytes32 30 ++ bytes32 40 ++ bytes32 50 ++ bytes32 60)
        w.system.user;
}

abbrev with_memory : Memory → World → World
with_memory m w = record w {
  system = record w.system {
    machine = record w.system.machine { blocks = m.blocks };
    user = m.bytes;
  };
}

-- From the pushes to the end
unfoldable pub show_points : ℕ → Vector → Memory → World → Option World
show_points address v m w = elim (pushed address v m) [
  | none ↦ none
  | some a ↦ elim (pushed (address + 8) a.0 a.1) [
    | none ↦ none
    | some b ↦ elim (pushed (address + 16) b.0 b.1) [
      | none ↦ none
      | some c ↦ elim (print_points c.0.size 0 c.0 c.1 w.console) [
        | none ↦ none
        | some con ↦ elim (vector_free c.0 c.1) [
          | none ↦ none
          | some d ↦ some (with_memory d.1 (record w { console = con }))
        ]
      ]
    ]
  ]
]

-- `points` is what stands in the vector's variable before.
unfoldable pub test_app : ℕ → Vector → World → Option World
test_app address points w =
    let r = vector_init 2 8 points (with_points address w) in
    elim r.0 [ false ↦ some w | true ↦ show_points address r.1 r.2 w ]
