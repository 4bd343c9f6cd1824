-- ===== src/Heap/Room.antt =====
-- Growing in place makes room for the size asked for.
use sojebos.Common.{
  ℕ, ◌≤◌, ◌≡◌, refl, sym, ◌∙◌, true, false, inl, inr, ◌==◌, Bool-cases, some, List, [], ◌∷◌, arith,
  u32, leb, ◌+◌,
}
use sojebos.Heap.{Block, block_size, alignment}
use sojebos.Heap.Inv.{block_at}
use sojebos.Heap.Realloc.{
  Growth, no_block, big_enough, grown, must_move, combine, grow_block, behind, grow_from,
}
use sojebos.Heap.Resize.{behind-grown}

combine-room :
    (block size : ℕ) (b n : Block) (rest : List Block)
    → (b.addr == block) ≡ true
    → size ≤ u32 (b.size + block_size + n.size)
    → (c : Block) × (block_at block (combine size b n rest) ≡ some c)
      × (c.free ≡ b.free)
      × (size ≤ c.size)
unfolding combine block_at
combine-room block size b n rest here fits =
    elim (Bool-cases
      (leb (u32 (size + block_size + alignment)) (u32 (b.size + block_size + n.size)))) [
        | inl e ↦ rw (e, here) (record b { size = size }, refl, refl, omega arith)
        | inr e ↦
            rw (e, here) (record b { size = u32 (b.size + block_size + n.size) }, refl, refl, fits)
      ]

grow_block-room :
    (block size : ℕ) (b : Block) (bs after : List Block)
    → (b.addr == block) ≡ true
    → grow_block size b bs ≡ grown after
    → (c : Block) × (block_at block after ≡ some c) × (c.free ≡ b.free) × (size ≤ c.size)
unfolding grow_block
grow_block-room block size b [] after here e = absurd (ground arith)
grow_block-room block size b (n ∷ rest) after here e =
    let whole : combine size b n rest ≡ after = ground arith in
    let fits : size ≤ u32 (b.size + block_size + n.size) = ground arith in
    rw (sym whole) (combine-room block size b n rest here fits)

pub grow_from-room :
    (block size : ℕ) (bs after : List Block) (c : Block)
    → block_at block bs ≡ some c
    → c.free ≡ false
    → grow_from block size bs ≡ grown after
    → (b : Block) × (block_at block after ≡ some b) × (b.free ≡ false) × (size ≤ b.size)
unfolding grow_from block_at
grow_from-room block size [] after c found used e = absurd (ground arith)
grow_from-room block size (b ∷ bs) after c found used e = elim (Bool-cases (b.addr == block)) [
  | inl here ↦
      let it : b ≡ c = ground arith in
      let (d, at, same, room) = grow_block-room block size b bs after here (ground arith) in
      (d, at, same ∙ rw it used, room)
  | inr there ↦
      let (l, grows, eq) = behind-grown b (grow_from block size bs) after (ground arith) in
      let ih = grow_from-room block size bs l c (ground arith) used grows in rw (eq, there) ih
]

behind-big_enough : (b : Block) (g : Growth) → behind b g ≡ big_enough → g ≡ big_enough
behind-big_enough b no_block e = cc
behind-big_enough b big_enough e = refl
behind-big_enough b (must_move m) e = cc
behind-big_enough b (grown bs) e = cc

grow_block-big_enough :
    (size : ℕ) (b : Block) (bs : List Block) → grow_block size b bs ≡ big_enough → size ≤ b.size
unfolding grow_block
grow_block-big_enough size b [] e = ground arith
grow_block-big_enough size b (n ∷ rest) e = ground arith

pub grow_from-big_enough :
    (block size : ℕ) (bs : List Block) (c : Block)
    → block_at block bs ≡ some c
    → grow_from block size bs ≡ big_enough
    → size ≤ c.size
unfolding grow_from block_at
grow_from-big_enough block size [] c found e = absurd (ground arith)
grow_from-big_enough block size (b ∷ bs) c found e = elim (Bool-cases (b.addr == block)) [
  | inl here ↦
      let it : b ≡ c = ground arith in
      let le = grow_block-big_enough size b bs (ground arith) in rw (sym it) le
  | inr there ↦
      grow_from-big_enough block size bs c (ground arith) (behind-big_enough b _ (ground arith))
]
