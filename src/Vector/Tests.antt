-- ===== src/Vector/Tests.antt =====
-- Examples: a full vector of thirteen elements of eight bytes in a heap of 0x400 bytes.
use sojebos.Common.{ℕ, ◌*◌, ◌≡◌, refl, true, false, inr, ◌⊎◌, arith, some, none, [], ◌∷◌}
use sojebos.Heap.{Block, kmalloc}
use sojebos.Heap.Inv.{block_at}
use sojebos.Heap.Realloc.{Memory}
use sojebos.Vector.{Vector, vector_push_back}
use sojebos.Vector.Rows.{IsVector}
use sojebos.Vector.Push.{Appended, vector_push_back-Appended}

abbrev first : Block
first = record { addr = 0x1000; size = 104; free = false }

abbrev memory : Memory
memory = record {
  blocks = first ∷ record { addr = 0x1074; size = 896; free = true } ∷ [];
  bytes = λ q. q;
}

abbrev points : Vector
points = record { items = 0x100c; size = 13; capacity = 13; element_size = 8 }

points-IsVector : IsVector 0x1000 0x1400 first points memory
unfolding block_at
points-IsVector = record {
  valid = ground arith;
  holds = refl;
  is_used = refl;
  inside = (omega arith, omega arith);
  room = omega arith;
  fits = omega arith;
  some_capacity = omega arith;
  some_bytes = omega arith;
}

vector_push_back-Appended_example :
    ((◌≡◌ {A = ℕ} 13 13)
      × (kmalloc (13 * 2 * 8) memory.blocks ≡ none)
      × (vector_push_back 0x2000 points memory ≡ some (false, points, memory)))
    ⊎ ((v' : Vector) × (m' : Memory) × (vector_push_back 0x2000 points memory ≡ some (true, v', m'))
        × Appended 0x1000 0x1400 0x2000 points memory (v', m'))
vector_push_back-Appended_example =
    vector_push_back-Appended 0x1000 0x1400 first points memory points-IsVector (omega arith) 0x2000
      (λ e. absurd (omega (arith, e))) (inr (omega arith))
