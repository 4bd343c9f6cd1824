-- ===== src/Heap/Moves.antt =====
-- `krealloc` as a whole: on a pointer to a block in use it returns, keeps the list valid, and either
-- fails without a trace or returns a block with the old contents.

use sojebos.Common.{ℕ, ◌+◌, ◌≤◌, ◌<◌, ◌≡◌, refl, false, inl, inr, ◌^◌, ◌⊎◌, ◌≢◌}
use sojebos.Common.{Option, some, none, arith, ◌==◌, sub32, Option-cases}
use sojebos.Heap.{Block, block_size, align, kmalloc}
use sojebos.Heap.Inv.{IsValid, block_at}
use sojebos.Heap.Realloc.{
  Memory, memcpy, Growth, no_block, big_enough, grown, must_move, grow_from, move_block, resize_as,
  krealloc,
}
use sojebos.Heap.Replace.{kfree-kmalloc_other}
use sojebos.Heap.Room.{grow_from-room, grow_from-big_enough}
use sojebos.Heap.Resize.{grow_from-IsValid, grow_from-must_move, grow_from-found, memcpy-copies}

-- The result of a `krealloc` that returns: the pointer is that of a block in use of at least `room`
-- bytes.
pub record Resized (start end room ptr : ℕ) (c : Block) (m : Memory) (r : Option ℕ × Memory)
    : Type 0 where
  pub valid : IsValid start end r.1.blocks
  pub contents :
      ((r.0 ≡ none) × (r.1 ≡ m))
      ⊎ ((p : ℕ) × (r.0 ≡ some p)
          × ((i : ℕ) → i < c.size → r.1.bytes (p + i) ≡ m.bytes (ptr + i))
          × ((b : Block) × (block_at (sub32 p block_size) r.1.blocks ≡ some b)
              × (b.free ≡ false)
              × (room ≤ b.size)))

module _ (start end ptr : ℕ) (c : Block) (m : Memory) (v : IsValid start end m.blocks)
    (lt : ptr < 2 ^ 32) (pn : ptr ≢ 0) (found : block_at (sub32 ptr block_size) m.blocks ≡ some c)
    (used : c.free ≡ false) where
  move_block-Resized :
      (size old : ℕ)
      → old ≡ c.size
      → old < align size
      → size ≤ align size
      → (r : Option ℕ × Memory) × (move_block ptr size old m ≡ some r)
        × Resized start end size ptr c m r
  unfolding move_block
  move_block-Resized size old same grows wide = elim (Option-cases (kmalloc size m.blocks)) [
    | inl full ↦
        ((none, m), rw (full, move_block) refl, record { valid = v; contents = inl (refl, refl) })
    | inr ((p, after), took) ↦
        let (bs, new, freed, room, r) =
          kfree-kmalloc_other start end ptr size c m.blocks v lt pn found used took in
        (
          (some p, record { blocks = bs; bytes = memcpy p ptr old m.bytes }),
          rw (took, move_block) (rw freed refl),
          record {
            valid = r.valid;
            contents = inr (
              p,
              refl,
              λ i h.
                  memcpy-copies p ptr old m.bytes i
                    (omega (arith, r.apart, room, wide, same, grows)) (omega arith),
              (new, r.holds, r.is_used, omega (arith, room, wide)),
            );
          },
        )
  ]

  grow-Resized :
      (size : ℕ) (g : Growth)
      → grow_from (sub32 ptr block_size) (align size) m.blocks ≡ g
      → (r : Option ℕ × Memory) × (resize_as ptr size m g ≡ some r)
        × Resized start end (align size) ptr c m r
  grow-Resized size no_block e =
      absurd (grow_from-found (sub32 ptr block_size) (align size) m.blocks c found e)
  grow-Resized size big_enough e = (
    (some ptr, m),
    refl,
    record {
      valid = v;
      contents = inr (
        ptr,
        refl,
        λ i h. refl,
        (
          c,
          found,
          used,
          grow_from-big_enough (sub32 ptr block_size) (align size) m.blocks c found e,
        ),
      );
    },
  )
  grow-Resized size (grown bs) e =
      let w =
        grow_from-IsValid (sub32 ptr block_size) (align size) false m.blocks bs start end c v.tiles
          v.in_space (omega arith) v.separated found used e in
      (
        (some ptr, record m { blocks = bs }),
        refl,
        record {
          valid = record {
            aligned = v.aligned;
            positive = v.positive;
            in_space = v.in_space;
            tiles = w.0;
            separated = w.1;
          };
          contents = inr (
            ptr,
            refl,
            λ i h. refl,
            grow_from-room (sub32 ptr block_size) (align size) m.blocks bs c found used e,
          );
        },
      )
  grow-Resized size (must_move old) e =
      let why = grow_from-must_move (sub32 ptr block_size) (align size) m.blocks old c found e in
      move_block-Resized (align size) old why.0 (omega (arith, why.1)) (omega arith)

  -- On a block in use, with a size other than 0, `krealloc` returns; the list stays valid, and
  -- either nothing has changed and NULL is returned, or a pointer to the block's old contents,
  -- in a block in use that has room for the size rounded up.
  pub krealloc-Resized :
      (size : ℕ)
      → size ≢ 0
      → (r : Option ℕ × Memory) × (krealloc ptr size m ≡ some r)
        × Resized start end (align size) ptr c m r
  unfolding krealloc
  krealloc-Resized size sn =
      let p0 : (ptr == 0) ≡ false = ground arith in
      let s0 : (size == 0) ≡ false = ground arith in rw (p0, s0) (grow-Resized size _ refl)
