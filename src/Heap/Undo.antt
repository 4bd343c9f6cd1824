-- ===== src/Heap/Undo.antt =====
-- `kfree` after `kmalloc`: the list is restored.
use sojebos.Common.{ℕ, ◌+◌, ◌≤◌, ◌<◌, ◌≡◌, true, false, inl, inr, ◌++◌, ◌^◌}
use sojebos.Common.{some, List, [], ◌∷◌, arith, ◌==◌, Bool-cases, u32, sub32}
use sojebos.Heap.{
  Block, block_size, align, carve, kmalloc, join_next, join_prev, free_after, free_block, kfree,
}
use sojebos.Heap.Inv.{Tiles, IsValid, IsSeparated}
use sojebos.Heap.Live.{mid-le}
use sojebos.Heap.Malloc.{kmalloc-FirstFit, fits-le, splits}

-- A free block with no free neighbour is joined with nothing.
rejoin_whole :
    (b : Block) (bs : List Block)
    → b.free ≡ true
    → IsSeparated true bs
    → join_next (record b { free = true }) bs ≡ b ∷ bs
unfolding join_next
rejoin_whole b [] f s = ground arith
rejoin_whole b (n ∷ rest) f s = ground arith

-- The two halves of a split block are joined to what they were.
rejoin_split :
    (size : ℕ) (b : Block) (bs : List Block)
    → b.free ≡ true
    → size + 20 ≤ b.size
    → b.size < 2 ^ 32
    → join_next
        (record b { size = size; free = true })
        (record {
          addr = u32 (b.addr + block_size + size);
          size = sub32 (sub32 b.size size) block_size;
          free = true;
        }
          ∷ bs)
      ≡ b ∷ bs
unfolding join_next
rejoin_split size b bs f le lt = ground arith

-- Freed at once, a carved block and its remainder are one block again, at the head of the list or
-- behind a block in use.
module _ (size : ℕ) (b : Block) (bs : List Block) (f : b.free ≡ true) (le : size ≤ b.size)
    (lt : b.size + 20 < 2 ^ 32) (s : IsSeparated true bs) where
  carve-undone : free_block b.addr (carve size b bs) ≡ some (b ∷ bs)
  unfolding free_block carve
  carve-undone = elim (Bool-cases (splits size b)) [
    | inr e ↦ rw e (ground (arith, rejoin_whole b bs f s))
    | inl e ↦ rw e (ground (arith, rejoin_split size b bs f (ground arith)))
  ]

  carve-undone_after :
      (prev : Block)
      → prev.free ≡ false
      → free_after b.addr prev (carve size b bs) ≡ some (prev ∷ b ∷ bs)
  unfolding free_after carve join_prev
  carve-undone_after prev used = elim (Bool-cases (splits size b)) [
    | inr e ↦ rw e (ground (arith, rejoin_whole b bs f s))
    | inl e ↦ rw e (ground (arith, rejoin_split size b bs f (ground arith)))
  ]

module _ (size : ℕ) (b : Block) (bs : List Block) (end : ℕ) (f : b.free ≡ true) (le : size ≤ b.size)
    (h : end + 20 ≤ 2 ^ 32) where
  undone_after :
      (prev : Block) (before : List Block) (start : ℕ)
      → 0 < start
      → Tiles start end (before ++ b ∷ bs)
      → IsSeparated prev.free (before ++ b ∷ bs)
      → free_after b.addr prev (before ++ carve size b bs) ≡ some (prev ∷ before ++ b ∷ bs)
  unfolding free_after
  undone_after prev [] start pos t s =
      let room = mid-le [] b bs start end t in
      carve-undone_after size b bs f le (omega arith) (rw f at s.1) prev (ground arith)
  undone_after prev (d ∷ ds) start pos t s =
      let ih = undone_after d ds (start + block_size + d.size) (omega arith) t.2 s.1 in
      let far = mid-le ds b bs (start + block_size + d.size) end t.2 in ground (arith, ih, far)

  undone :
      (before : List Block) (start : ℕ)
      → 0 < start
      → Tiles start end (before ++ b ∷ bs)
      → IsSeparated false (before ++ b ∷ bs)
      → free_block b.addr (before ++ carve size b bs) ≡ some (before ++ b ∷ bs)
  unfolding free_block
  undone [] start pos t s =
      let room = mid-le [] b bs start end t in
      carve-undone size b bs f le (omega arith) (rw f at s.1)
  undone (d ∷ ds) start pos t s =
      let ih = undone_after d ds (start + block_size + d.size) (omega arith) t.2 s.1 in
      let far = mid-le ds b bs (start + block_size + d.size) end t.2 in ground (arith, ih, far)

-- On a valid heap, freeing what was just allocated restores the whole list.
pub kfree-kmalloc :
    (start end size : ℕ) (blocks : List Block) {p : ℕ} {after : List Block}
    → IsValid start end blocks
    → kmalloc size blocks ≡ some (p, after)
    → kfree p after ≡ some blocks
unfolding kfree
kfree-kmalloc start end size blocks {p} {after} v h =
    let f = kmalloc-FirstFit size blocks h in
    let b = f.taken in
    let fit = fits-le (align size) b f.chosen in
    let t : Tiles start end (f.before ++ b ∷ f.rest) = rw f.blocks_eq at v.tiles in
    let near = mid-le f.before b f.rest start end t in
    let header : sub32 p block_size ≡ b.addr = omega (arith, f.pointer_eq, v.in_space) in
    let not_null : (p == 0) ≡ false = ground (arith, f.pointer_eq, v.in_space) in
    rw (not_null, header, f.after_eq, f.blocks_eq)
      (undone (align size) b f.rest end fit.0 fit.1 v.in_space f.before start v.positive t
        (rw f.blocks_eq at v.separated))
