-- ===== src/Heap.antt =====
-- src/kernel/memory/memory.c and memory.h: the first-fit allocator over a linked list of blocks.
--
-- The list from `free_list_head` is a list of headers, each with its address; `next` is the list's
-- order. `size_t` has 32 bits. `none` from `kmalloc` is NULL; `none` from `kfree` and `krealloc`
-- is a pointer that no header of the list precedes, for which the C code writes outside its blocks.
pub mod Inv
pub mod Malloc
pub mod Free
pub mod Undo
pub mod Keeps
pub mod Live
pub mod Realloc
pub mod Replace
pub mod Room
pub mod Resize
pub mod Moves
pub mod Tests
use mathlib.Core.Option
use sojebos.Common.{ℕ, zero, ◌+◌, ◌*◌, ◌/◌, ◌^◌, Bool, true, false, ◌&&◌, Option, none, some}
use sojebos.Common.{List, [], ◌∷◌, leb, ◌==◌, if◌then◌else◌, u32, sub32}

-- `MemoryBlock`, with the address where it stands
pub record Block : Type 0 where
  pub addr : ℕ
  pub size : ℕ
  pub free : Bool

-- `Block_SIZE`: a size, an int and a pointer, of 4 bytes each
abbrev pub block_size : ℕ
block_size = 12

abbrev pub alignment : ℕ
alignment = 8

-- `ALIGN(size)`; the mask clears the low three bits
abbrev pub align : ℕ → ℕ
align size = u32 (size + 7) / 8 * 8

unfoldable pub kheap_init : ℕ → ℕ → List Block
kheap_init start size = record { addr = start; size = sub32 size block_size; free = true } ∷ []

-- What the loop of `kmalloc` does to the block that it takes, and to the list behind it.
unfoldable pub carve : ℕ → Block → List Block → List Block
carve size b bs =
    if leb (u32 (size + block_size + alignment)) b.size
    then record b { size = size; free = false }
      ∷ record {
        addr = u32 (b.addr + block_size + size);
        size = sub32 (sub32 b.size size) block_size;
        free = true;
      }
      ∷ bs
    else record b { free = false } ∷ bs

unfoldable pub kmalloc_from : ℕ → List Block → Option (ℕ × List Block)
unfolding carve
kmalloc_from size [] = none
kmalloc_from size (b ∷ bs) =
    if b.free && leb size b.size
    then some (u32 (b.addr + block_size), carve size b bs)
    else Option.map (λ r. (r.0, b ∷ r.1)) (kmalloc_from size bs)

-- The pointer handed out, with the new list.
unfoldable pub kmalloc : ℕ → List Block → Option (ℕ × List Block)
unfolding kmalloc_from
kmalloc size blocks = kmalloc_from (align size) blocks

-- Coalesce a block with the next one if that is free.
unfoldable pub join_next : Block → List Block → List Block
join_next b [] = b ∷ []
join_next b (n ∷ rest) =
    if n.free
    then record b { size = u32 (b.size + u32 (block_size + n.size)) } ∷ rest
    else b ∷ n ∷ rest

-- Coalesce the first block of a list into the one before it if that is free.
unfoldable pub join_prev : Block → List Block → List Block
join_prev p [] = p ∷ []
join_prev p (b ∷ rest) =
    if p.free
    then record p { size = u32 (p.size + u32 (block_size + b.size)) } ∷ rest
    else p ∷ b ∷ rest

-- The search for the freed header behind `prev`, and both ways of coalescing.
unfoldable pub free_after : ℕ → Block → List Block → Option (List Block)
unfolding join_next join_prev
free_after block prev [] = none
free_after block prev (b ∷ bs) =
    if b.addr == block
    then some (join_prev prev (join_next (record b { free = true }) bs))
    else Option.map (λ r. prev ∷ r) (free_after block b bs)

unfoldable pub free_block : ℕ → List Block → Option (List Block)
unfolding free_after
free_block block [] = none
free_block block (b ∷ bs) =
    if b.addr == block
    then some (join_next (record b { free = true }) bs)
    else free_after block b bs

unfoldable pub kfree : ℕ → List Block → Option (List Block)
unfolding free_block
kfree ptr blocks = if ptr == 0 then some blocks else free_block (sub32 ptr block_size) blocks
