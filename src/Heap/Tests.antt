-- ===== src/Heap/Tests.antt =====
-- Runs of the allocator on a small heap, and the theorems at a concrete input.

use sojebos.Common.{ℕ, ◌≡◌, refl, true, false, some, Option, ◌%◌, List, [], ◌∷◌, arith}
use sojebos.Heap.{
  Block, align, kheap_init, kmalloc, kmalloc_from, carve, kfree, free_block, free_after, join_next,
  join_prev,
}
use sojebos.Heap.Inv.{IsValid, block_at}
use sojebos.Heap.Malloc.{kmalloc-IsValid}
use sojebos.Heap.Live.{Grants, kmalloc-Grants, kmalloc-keeps_used}
use sojebos.Heap.Free.{kfree-IsValid}
use sojebos.Heap.Undo.{kfree-kmalloc}
use sojebos.Heap.Keeps.{kfree-keeps_used}
use sojebos.Heap.Realloc.{Memory, krealloc}
use sojebos.Heap.Moves.{Resized, krealloc-Resized}

-- A heap of 0x400 bytes at 0x1000.
abbrev pub fresh : List Block
fresh = record { addr = 0x1000; size = 0x3f4; free = true } ∷ []

-- The same heap after a request of 100 bytes: 104 are granted.
abbrev first : Block
first = record { addr = 0x1000; size = 104; free = false }

abbrev one_used : List Block
one_used = first ∷ record { addr = 0x1074; size = 896; free = true } ∷ []

abbrev second : Block
second = record { addr = 0x1074; size = 8; free = false }

abbrev two_used : List Block
two_used = first ∷ second ∷ record { addr = 0x1088; size = 876; free = true } ∷ []

kheap_init_runs : kheap_init 0x1000 0x400 ≡ fresh
unfolding kheap_init
kheap_init_runs = refl

first_request : kmalloc 100 fresh ≡ some (0x100c, one_used)
unfolding kmalloc kmalloc_from carve
first_request = refl

second_request : kmalloc 1 one_used ≡ some (0x1080, two_used)
unfolding kmalloc kmalloc_from carve
second_request = refl

-- A request just below 2 ^ 32 is rounded to 0 and granted.
huge_request : align 0xffffffff ≡ 0
huge_request = refl

pub fresh-IsValid : IsValid 0x1000 0x1400 fresh
fresh-IsValid = record {
  aligned = refl;
  positive = omega arith;
  in_space = omega arith;
  tiles = (refl, refl, refl);
  separated = (refl, tt);
}

one_used-IsValid : IsValid 0x1000 0x1400 one_used
one_used-IsValid = record {
  aligned = refl;
  positive = omega arith;
  in_space = omega arith;
  tiles = (refl, refl, (refl, refl, refl));
  separated = (refl, (refl, tt));
}

first_found : block_at 0x1000 one_used ≡ some first
unfolding block_at
first_found = refl

freed : kfree 0x1080 two_used ≡ some one_used
unfolding kfree free_block free_after join_next join_prev
freed = refl

two_used-IsValid : IsValid 0x1000 0x1400 two_used
two_used-IsValid = kmalloc-IsValid 0x1000 0x1400 1 one_used one_used-IsValid second_request

kmalloc-IsValid_example : IsValid 0x1000 0x1400 two_used
kmalloc-IsValid_example = kmalloc-IsValid 0x1000 0x1400 1 one_used one_used-IsValid second_request

kmalloc-Grants_example : Grants 0x1000 0x1400 1 one_used 0x1080 two_used
kmalloc-Grants_example = kmalloc-Grants 0x1000 0x1400 1 one_used one_used-IsValid second_request

kmalloc-keeps_used_example : block_at 0x1000 two_used ≡ some first
kmalloc-keeps_used_example =
    kmalloc-keeps_used 0x1000 0x1400 1 one_used 0x1000 one_used-IsValid second_request first_found
      refl

kfree-IsValid_example : IsValid 0x1000 0x1400 one_used
kfree-IsValid_example = kfree-IsValid 0x1000 0x1400 0x1080 two_used two_used-IsValid freed

first_found_again : block_at 0x1000 two_used ≡ some first
unfolding block_at
first_found_again = refl

kfree-keeps_used_example : block_at 0x1000 one_used ≡ some first
kfree-keeps_used_example =
    kfree-keeps_used 0x1080 two_used 0x1000 freed first_found_again refl (omega arith)

kfree-kmalloc_example : kfree 0x1080 two_used ≡ some one_used
kfree-kmalloc_example = kfree-kmalloc 0x1000 0x1400 1 one_used one_used-IsValid second_request

abbrev memory : Memory
memory = record { blocks = one_used; bytes = λ q. q % 256 }

krealloc-Resized_example :
    (r : Option ℕ × Memory) × (krealloc 0x100c 500 memory ≡ some r)
    × Resized 0x1000 0x1400 (align 500) 0x100c first memory r
krealloc-Resized_example =
    krealloc-Resized 0x1000 0x1400 0x100c first memory one_used-IsValid (omega arith) (omega arith)
      first_found refl 500 (omega arith)
