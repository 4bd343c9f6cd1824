-- ===== src/Heap/Realloc.antt =====
-- `krealloc`: in place where the next block allows it, else by a new block and a copy.
--
-- Beside the block list the state has the bytes of memory, by address, which the copy reads and
-- writes.
use mathlib.Core.Option
use sojebos.Common.{ℕ, zero, suc, ◌+◌, true, ◌&&◌}
use sojebos.Common.{Option, some, none, List, [], ◌∷◌, ◌==◌, if◌then◌else◌, u32, sub32, leb}
use sojebos.Heap.{Block, block_size, alignment, align, kmalloc, kfree, join_next}

pub record Memory : Type 0 where
  pub blocks : List Block
  pub bytes : ℕ → ℕ

-- `memcpy(dest, src, n)` byte by byte, the lowest first
unfoldable pub memcpy : ℕ → ℕ → ℕ → (ℕ → ℕ) → ℕ → ℕ
memcpy dest src zero m = m
memcpy dest src (suc n) m = memcpy (dest + 1) (src + 1) n (λ q. if q == dest then m src else m q)

-- What `krealloc` finds at the header below the pointer.
pub data Growth : Type 0 where
  no_block : Growth
  big_enough : Growth
  grown : List Block → Growth
  must_move : ℕ → Growth

-- Take in the free block `n` behind `b`, and give back what is not needed.
unfoldable pub combine : ℕ → Block → Block → List Block → List Block
unfolding join_next
combine size b n rest =
    let combined = u32 (b.size + block_size + n.size) in
    if leb (u32 (size + block_size + alignment)) combined
    then record b { size = size }
      ∷ join_next
          (record {
            addr = u32 (b.addr + block_size + size);
            size = sub32 (sub32 combined size) block_size;
            free = true;
          })
          rest
    else record b { size = combined } ∷ rest

unfoldable pub grow_block : ℕ → Block → List Block → Growth
unfolding combine
grow_block size b [] = if leb size b.size then big_enough else must_move b.size
grow_block size b (n ∷ rest) =
    if leb size b.size
    then big_enough
    else if n.free && leb size (u32 (b.size + block_size + n.size))
    then grown (combine size b n rest)
    else must_move b.size

abbrev pub behind : Block → Growth → Growth
behind b (grown bs) = grown (b ∷ bs)
behind b g = g

unfoldable pub grow_from : ℕ → ℕ → List Block → Growth
unfolding grow_block
grow_from block size [] = no_block
grow_from block size (b ∷ bs) =
    if b.addr == block then grow_block size b bs else behind b (grow_from block size bs)

-- The last part of `krealloc`: a new block, the copy, and the old block freed.
unfoldable pub move_block : ℕ → ℕ → ℕ → Memory → Option (Option ℕ × Memory)
unfolding memcpy kmalloc kfree
move_block ptr size old m = elim (kmalloc size m.blocks) [
  | none ↦ some (none, m)
  | some r ↦
      Option.map (λ bs. (some r.0, record { blocks = bs; bytes = memcpy r.0 ptr old m.bytes }))
        (kfree ptr r.1)
]

-- The branches on what stands at the header.
abbrev pub resize_as : ℕ → ℕ → Memory → Growth → Option (Option ℕ × Memory)
resize_as ptr size m no_block = none
resize_as ptr size m big_enough = some (some ptr, m)
resize_as ptr size m (grown bs) = some (some ptr, record m { blocks = bs })
resize_as ptr size m (must_move old) = move_block ptr (align size) old m

-- The inner option is the pointer returned, NULL being `none`.
unfoldable pub krealloc : ℕ → ℕ → Memory → Option (Option ℕ × Memory)
unfolding grow_from move_block
krealloc ptr size m =
    if ptr == 0
    then some (elim (kmalloc size m.blocks) [
      | none ↦ (none, m)
      | some r ↦ (some r.0, record m { blocks = r.1 })
    ])
    else if size == 0
    then Option.map (λ bs. (none, record m { blocks = bs })) (kfree ptr m.blocks)
    else resize_as ptr size m (grow_from (sub32 ptr block_size) (align size) m.blocks)
