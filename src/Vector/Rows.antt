-- ===== src/Vector/Rows.antt =====
-- The vector's block: its invariant, and where an element lies in it.
use sojebos.Common.{ℕ, ◌+◌, ◌*◌, ◌≤◌, ◌<◌, ◌≡◌, arith, some, false, sub32}
use sojebos.Heap.{Block, block_size}
use sojebos.Heap.Inv.{IsValid, block_at}
use sojebos.Heap.Realloc.{Memory}
use sojebos.Vector.{Vector}

-- The array lies in a block in use, with a place for as many elements as the capacity says.
pub record IsVector (start end : ℕ) (c : Block) (v : Vector) (m : Memory) : Type 0 where
  pub valid : IsValid start end m.blocks
  pub holds : block_at (sub32 v.items block_size) m.blocks ≡ some c
  pub is_used : c.free ≡ false
  pub inside : (start + block_size ≤ v.items) × (v.items + c.size ≤ end)
  pub room : v.capacity * v.element_size ≤ c.size
  pub fits : v.size ≤ v.capacity
  pub some_capacity : 0 < v.capacity
  pub some_bytes : 0 < v.element_size

pub row_below : (a b e : ℕ) → a < b → a * e + e ≤ b * e
row_below a b e h = grind arith

pub rows_le : (a b e : ℕ) → a ≤ b → a * e ≤ b * e
rows_le a b e h = grind arith

pub count-le : (a e : ℕ) → 0 < e → a ≤ a * e
count-le a e h = grind arith
