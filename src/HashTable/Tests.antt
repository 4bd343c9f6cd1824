-- ===== src/HashTable/Tests.antt =====
-- Examples: a table of three buckets with two keys.
use sojebos.Common.{ℕ, ◌≢◌, arith, List, [], ◌∷◌}
use sojebos.Heap.{Block, kheap_init}
use sojebos.HashTable.{same_string}
use sojebos.HashTable.Map.{same_string_iff}

abbrev two_keys : List (List (List ℕ × ℕ))
two_keys = ((105 ∷ 110 ∷ [], 1) ∷ []) ∷ [] ∷ ((115 ∷ 104 ∷ [], 2) ∷ []) ∷ []

abbrev heap : List Block
heap = kheap_init 0x300000 4096

abbrev shell_key : List ℕ
shell_key = 115 ∷ 104 ∷ []

abbrev short_key : List ℕ
short_key = 115 ∷ []

different : shell_key ≢ 105 ∷ []
unfolding same_string
different e = let same = (same_string_iff (115 ∷ 104 ∷ []) (105 ∷ [])).1 e in ground arith
