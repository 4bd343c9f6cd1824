-- ===== src/Heap/Free.antt =====
-- `kfree`: coalescing keeps the list valid.
use sojebos.Common.{ℕ, ◌+◌, ◌≤◌, ◌≡◌, refl, Bool, true, false, ◌&&◌, inl, inr, ◌^◌}
use sojebos.Common.{some, List, [], ◌∷◌, arith, ◌==◌, Bool-cases, sub32, Option-cases}
use sojebos.Heap.{Block, block_size, join_next, join_prev, free_after, free_block, kfree}
use sojebos.Heap.Inv.{Tiles, IsValid, IsSeparated, Tiles-le, Tiles-start}

pub join_next-Tiles :
    (b : Block) (bs : List Block) (start end : ℕ)
    → Tiles start end (b ∷ bs)
    → end + 20 ≤ 2 ^ 32
    → Tiles start end (join_next b bs)
unfolding join_next
join_next-Tiles b [] start end t h = t
join_next-Tiles b (n ∷ rest) start end t h =
    let bound = Tiles-le rest (start + block_size + b.size + block_size + n.size) end t.2.2 in
    elim (Bool-cases n.free) [
      | inr e ↦ rw e t
      | inl e ↦ rw e (t.0, omega arith, Tiles-start rest end (omega arith) t.2.2)
    ]

join_prev-Tiles :
    (p : Block) (bs : List Block) (start end : ℕ)
    → Tiles start end (p ∷ bs)
    → end + 20 ≤ 2 ^ 32
    → Tiles start end (join_prev p bs)
unfolding join_prev
join_prev-Tiles p [] start end t h = t
join_prev-Tiles p (b ∷ rest) start end t h =
    let bound = Tiles-le rest (start + block_size + p.size + block_size + b.size) end t.2.2 in
    elim (Bool-cases p.free) [
      | inr e ↦ rw e t
      | inl e ↦ rw e (t.0, omega arith, Tiles-start rest end (omega arith) t.2.2)
    ]

abbrev pub HeadIsFree : List Block → Type 0
HeadIsFree [] = Unit
HeadIsFree (b ∷ bs) = b.free ≡ true

-- Marking a block free and joining it with the next leaves a free block that is separated from
-- what follows.
pub join_next-IsSeparated :
    (flag : Bool) (b : Block) (bs : List Block)
    → b.free ≡ true
    → IsSeparated flag bs
    → IsSeparated false (join_next b bs) × HeadIsFree (join_next b bs)
unfolding join_next
join_next-IsSeparated flag b [] f s = ((refl, tt), f)
join_next-IsSeparated flag b (n ∷ rest) f s = elim (Bool-cases n.free) [
  | inr e ↦ rw (e, f) ((refl, (refl, rw e at s.1)), refl)
  | inl e ↦ rw (e, f) ((refl, rw e at s.1), refl)
]

join_prev-IsSeparated :
    (flag : Bool) (p : Block) (bs : List Block)
    → (flag && p.free) ≡ false
    → IsSeparated false bs × HeadIsFree bs
    → IsSeparated flag (join_prev p bs)
unfolding join_prev
join_prev-IsSeparated flag p [] f s = (f, tt)
join_prev-IsSeparated flag p (b ∷ rest) f s = elim (Bool-cases p.free) [
  | inr e ↦ rw e (rw e at f, s.0)
  | inl e ↦ rw e (rw e at f, rw s.1 at s.0.1)
]

free_after-IsValid :
    (block : ℕ) (flag : Bool) (prev : Block) (bs after : List Block) (start end : ℕ)
    → Tiles start end (prev ∷ bs)
    → end + 20 ≤ 2 ^ 32
    → IsSeparated flag (prev ∷ bs)
    → free_after block prev bs ≡ some after
    → Tiles start end after × IsSeparated flag after
unfolding free_after
free_after-IsValid block flag prev [] after start end t h s e = cc
free_after-IsValid block flag prev (b ∷ bs) after start end t h s e =
    elim (Bool-cases (b.addr == block)) [
      | inl here ↦
          let b' : Block = record b { free = true } in
          let eq : join_prev prev (join_next b' bs) ≡ after = ground arith in
          rw (← eq) (
            join_prev-Tiles prev (join_next b' bs) start end
                (t.0, t.1, join_next-Tiles b' bs (start + block_size + prev.size) end t.2 h) h,
            join_prev-IsSeparated flag prev (join_next b' bs) s.0
                (join_next-IsSeparated b.free b' bs refl s.1.1),
          )
      | inr there ↦ elim (Option-cases (free_after block b bs)) [
        | inl no_block ↦ ground arith
        | inr (r, found) ↦
            let eq : prev ∷ r ≡ after = ground arith in
            let ih =
              free_after-IsValid block prev.free b bs r (start + block_size + prev.size) end t.2 h
                s.1 found in
            rw (← eq) ((t.0, t.1, ih.0), (s.0, ih.1))
      ]
    ]

free_block-IsValid :
    (block : ℕ) (bs after : List Block) (start end : ℕ)
    → Tiles start end bs
    → end + 20 ≤ 2 ^ 32
    → IsSeparated false bs
    → free_block block bs ≡ some after
    → Tiles start end after × IsSeparated false after
unfolding free_block
free_block-IsValid block [] after start end t h s e = cc
free_block-IsValid block (b ∷ bs) after start end t h s e = elim (Bool-cases (b.addr == block)) [
  | inl here ↦
      let b' : Block = record b { free = true } in
      let eq : join_next b' bs ≡ after = ground arith in
      rw (← eq)
        (join_next-Tiles b' bs start end t h, (join_next-IsSeparated b.free b' bs refl s.1).0)
  | inr there ↦ free_after-IsValid block false b bs after start end t h s (ground arith)
]

-- A `kfree` of NULL or of a pointer behind a header keeps a valid list valid, also where the block is
-- free already.
pub kfree-IsValid :
    (start end ptr : ℕ) (blocks : List Block) {after : List Block}
    → IsValid start end blocks
    → kfree ptr blocks ≡ some after
    → IsValid start end after
unfolding kfree
kfree-IsValid start end ptr blocks {after} v e = elim (Bool-cases (ptr == 0)) [
  | inl null ↦ let eq : blocks ≡ after = ground arith in rw (← eq) v
  | inr other ↦
      let r =
        free_block-IsValid (sub32 ptr block_size) blocks after start end v.tiles v.in_space
          v.separated (ground arith) in
      record {
        aligned = v.aligned;
        positive = v.positive;
        in_space = v.in_space;
        tiles = r.0;
        separated = r.1;
      }
]
