-- ===== src/Heap/Replace.antt =====
-- A new block, and then an old one freed: what `krealloc` and the growth of a vector do.
use sojebos.Common.{ℕ, ◌+◌, ◌≤◌, ◌<◌, ◌≡◌, refl, true, false, inl, inr, ◌^◌, ◌⊎◌, ◌≢◌}
use sojebos.Common.{Option, some, none, List, [], ◌∷◌, arith, sub32, Option-cases}
use sojebos.Heap.{Block, block_size, align, kmalloc, kfree, free_after, free_block}
use sojebos.Heap.Inv.{Tiles, IsValid, block_at, block_at-bounds}
use sojebos.Heap.Free.{kfree-IsValid}
use sojebos.Heap.Malloc.{kmalloc-IsValid}
use sojebos.Heap.Live.{kmalloc-Grants, kmalloc-keeps_used}
use sojebos.Heap.Keeps.{kfree-keeps_used}
use sojebos.Heap.Resize.{block_at-apart}

free_after-found :
    (block : ℕ) (prev : Block) (bs : List Block)
    → free_after block prev bs ≡ none
    → block_at block bs ≡ none
unfolding free_after block_at
free_after-found block prev [] e = refl
free_after-found block prev (b ∷ bs) e = ground (arith, free_after-found block b bs)

-- `kfree` finds every block of the list.
pub kfree-found :
    (ptr : ℕ) (bs : List Block) (c : Block)
    → block_at (sub32 ptr block_size) bs ≡ some c
    → kfree ptr bs ≢ none
unfolding kfree free_block block_at
kfree-found ptr [] c found e = cc
kfree-found ptr (b ∷ bs) c found e = ground (arith, free_after-found (sub32 ptr block_size) b bs)

pub block_at-disjoint :
    (bs : List Block) (start end q r : ℕ) {b c : Block}
    → Tiles start end bs
    → block_at q bs ≡ some b
    → block_at r bs ≡ some c
    → q ≢ r
    → (q + block_size + b.size ≤ r) ⊎ (r + block_size + c.size ≤ q)
block_at-disjoint bs start end q r {b} {c} t hq hr ne = ground (
  arith,
  block_at-apart bs start end q r {b = b} {c = c} t hq hr,
  block_at-apart bs start end r q {b = c} {c = b} t hr hq,
)

used-ne-free :
    {o : Option Block} {a b : Block} → o ≡ some a → o ≡ some b → b.free ≡ false → a.free ≡ true → ⊥
used-ne-free p q f g = ground arith

-- The new block at `p` is in use, and apart from the old block `c` at `ptr`.
pub record Replaces (start end ptr p : ℕ) (c new : Block) (bs : List Block) : Type 0 where
  pub valid : IsValid start end bs
  pub holds : block_at (sub32 p block_size) bs ≡ some new
  pub is_used : new.free ≡ false
  pub inside : (start + block_size ≤ p) × (p + new.size ≤ end)
  pub not_null : p ≢ 0
  pub old_inside : (start + block_size ≤ ptr) × (ptr + c.size ≤ end)
  pub apart : (p + new.size ≤ ptr) ⊎ (ptr + c.size ≤ p)

pub kfree-kmalloc_other :
    (start end ptr size : ℕ) (c : Block) (blocks : List Block) {p : ℕ} {after : List Block}
    → IsValid start end blocks
    → ptr < 2 ^ 32
    → ptr ≢ 0
    → block_at (sub32 ptr block_size) blocks ≡ some c
    → c.free ≡ false
    → kmalloc size blocks ≡ some (p, after)
    → (bs : List Block) × (new : Block) × (kfree ptr after ≡ some bs)
      × (align size ≤ new.size)
      × Replaces start end ptr p c new bs
kfree-kmalloc_other start end ptr size c blocks {p} {after} v lt pn found used took =
    let g = kmalloc-Grants start end size blocks v took in
    let still = kmalloc-keeps_used start end size blocks (sub32 ptr block_size) v took found used in
    let w = kmalloc-IsValid start end size blocks v took in
    let ne : sub32 p block_size ≢ sub32 ptr block_size =
      λ e. used-ne-free (rw e at g.was_free.0) found used g.was_free.1 in
    let apart = block_at-disjoint after start end _ _ w.tiles g.is_used.0 still ne in
    let here = block_at-bounds after start end _ w.tiles still in
    elim (Option-cases (kfree ptr after)) [
      | inl stray ↦ absurd (kfree-found ptr after c still stray)
      | inr (bs, freed) ↦ (
        bs,
        g.new,
        freed,
        g.room,
        record {
          valid = kfree-IsValid start end ptr after w freed;
          holds = kfree-keeps_used ptr after (sub32 p block_size) freed g.is_used.0 g.is_used.1 ne;
          is_used = g.is_used.1;
          inside = g.inside;
          not_null = g.not_null;
          old_inside = (
            omega (arith, here, v.in_space, v.positive),
            omega (arith, here, v.in_space, v.positive),
          );
          apart = grind (arith, apart, g.inside, here, v.in_space, v.positive);
        },
      )
    ]
