-- ===== src/Heap/Resize.antt =====
-- What `krealloc` keeps: the valid list, and the contents of the block.

use sojebos.Common.{
  ℕ, zero, suc, ◌+◌, ◌≤◌, ◌<◌, ◌≡◌, ◌%◌, refl, Bool, false, inl, inr, ◌^◌, ◌⊎◌, ◌≢◌,
}
use sojebos.Common.{some, List, [], ◌∷◌, arith, ◌==◌, if◌then◌else◌, Bool-cases, u32, leb}
use sojebos.Heap.{Block, block_size, alignment}
use sojebos.Heap.Inv.{
  Tiles, IsSeparated, IsSeparated-false, block_at, Tiles-le, Tiles-start, block_at-bounds,
}
use sojebos.Heap.Free.{join_next-Tiles, join_next-IsSeparated}
use sojebos.Heap.Realloc.{
  memcpy, Growth, no_block, big_enough, grown, must_move, combine, grow_block, behind, grow_from,
}

combine-Tiles :
    (size : ℕ) (b n : Block) (rest : List Block) (start end : ℕ)
    → Tiles start end (b ∷ n ∷ rest)
    → end + 20 ≤ 2 ^ 32
    → size % 4 ≡ 0
    → size ≤ b.size + block_size + n.size
    → Tiles start end (combine size b n rest)
unfolding combine
combine-Tiles size b n rest start end t h four le =
    let bound = Tiles-le rest (start + block_size + b.size + block_size + n.size) end t.2.2 in
    let total : u32 (b.size + block_size + n.size) ≡ b.size + block_size + n.size = omega arith in
    elim (Bool-cases
      (leb (u32 (size + block_size + alignment)) (u32 (b.size + block_size + n.size)))) [
        | inr e ↦ rw e (t.0, omega arith, Tiles-start rest end (omega arith) t.2.2)
        | inl e ↦
            let fit : size + 20 ≤ b.size + block_size + n.size = ground arith in
            rw e (
              t.0,
              four,
              join_next-Tiles _ rest (start + block_size + size) end
                  (omega arith, omega arith, Tiles-start rest end (omega arith) t.2.2) h,
            )
      ]

combine-IsSeparated :
    (flag : Bool) (size : ℕ) (b n : Block) (rest : List Block)
    → b.free ≡ false
    → IsSeparated flag (b ∷ n ∷ rest)
    → IsSeparated flag (combine size b n rest)
unfolding combine
combine-IsSeparated flag size b n rest used s =
    elim (Bool-cases
      (leb (u32 (size + block_size + alignment)) (u32 (b.size + block_size + n.size)))) [
        | inr e ↦ rw e (s.0, rw used (IsSeparated-false n.free rest s.1.1))
        | inl e ↦ rw e (s.0, rw used (join_next-IsSeparated n.free _ rest refl s.1.1).0)
      ]

grow_block-IsValid :
    (size : ℕ) (flag : Bool) (b : Block) (bs after : List Block) (start end : ℕ)
    → Tiles start end (b ∷ bs)
    → end + 20 ≤ 2 ^ 32
    → size % 4 ≡ 0
    → b.free ≡ false
    → IsSeparated flag (b ∷ bs)
    → grow_block size b bs ≡ grown after
    → Tiles start end after × IsSeparated flag after
unfolding grow_block
grow_block-IsValid size flag b [] after start end t h four used s e = ground arith
grow_block-IsValid size flag b (n ∷ rest) after start end t h four used s e =
    let eq : combine size b n rest ≡ after = ground arith in
    let le : size ≤ b.size + block_size + n.size = ground arith in
    rw (← eq) (
      combine-Tiles size b n rest start end t h four le,
      combine-IsSeparated flag size b n rest used s,
    )

pub behind-grown :
    (b : Block) (g : Growth) (after : List Block)
    → behind b g ≡ grown after
    → (bs : List Block) × (g ≡ grown bs) × (after ≡ b ∷ bs)
behind-grown b (grown bs) after e = (bs, refl, ground arith)
behind-grown b no_block after e = cc
behind-grown b big_enough after e = cc
behind-grown b (must_move n) after e = cc

pub grow_from-IsValid :
    (block size : ℕ) (flag : Bool) (bs after : List Block) (start end : ℕ) (c : Block)
    → Tiles start end bs
    → end + 20 ≤ 2 ^ 32
    → size % 4 ≡ 0
    → IsSeparated flag bs
    → block_at block bs ≡ some c
    → c.free ≡ false
    → grow_from block size bs ≡ grown after
    → Tiles start end after × IsSeparated flag after
unfolding grow_from block_at
grow_from-IsValid block size flag [] after start end c t h four s found used e = cc
grow_from-IsValid block size flag (b ∷ bs) after start end c t h four s found used e =
    elim (Bool-cases (b.addr == block)) [
      | inl here ↦
          grow_block-IsValid size flag b bs after start end t h four (ground arith) s (ground arith)
      | inr there ↦
          let (l, grows, eq) = behind-grown b (grow_from block size bs) after (ground arith) in
          let ih =
            grow_from-IsValid block size b.free bs l (start + block_size + b.size) end c t.2 h four
              s.1 (ground arith) used grows in
          rw eq ((t.0, t.1, ih.0), (s.0, ih.1))
    ]

-- Copying between blocks that do not overlap copies every byte and changes nothing else.
pub memcpy-outside :
    (dest src n : ℕ) (m : ℕ → ℕ) (q : ℕ) → (q < dest) ⊎ (dest + n ≤ q) → memcpy dest src n m q ≡ m q
unfolding memcpy
memcpy-outside dest src zero m q h = refl
memcpy-outside dest src (suc n) m q h =
    ground (arith, memcpy-outside (dest + 1) (src + 1) n (λ k. if k == dest then m src else m k) q)

pub memcpy-copies :
    (dest src n : ℕ) (m : ℕ → ℕ) (i : ℕ)
    → (dest + n ≤ src) ⊎ (src + n ≤ dest)
    → i < n
    → memcpy dest src n m (dest + i) ≡ m (src + i)
unfolding memcpy
memcpy-copies dest src zero m i h lt = elim lt [ ]
memcpy-copies dest src (suc n) m zero h lt =
    let d : dest + 0 ≡ dest = omega arith in
    let s : src + 0 ≡ src = omega arith in
    rw (d, s)
      (ground
        (arith, memcpy-outside (dest + 1) (src + 1) n (λ k. if k == dest then m src else m k) dest))
memcpy-copies dest src (suc n) m (suc i) h lt =
    let d : dest + suc i ≡ dest + 1 + i = omega arith in
    let s : src + suc i ≡ src + 1 + i = omega arith in
    rw (d, s)
      (ground
        (arith, memcpy-copies (dest + 1) (src + 1) n (λ k. if k == dest then m src else m k) i))

-- Two headers of one list: the block of the lower one ends before the higher one.
pub block_at-apart :
    (bs : List Block) (start end q r : ℕ) {b c : Block}
    → Tiles start end bs
    → block_at q bs ≡ some b
    → block_at r bs ≡ some c
    → q < r
    → q + block_size + b.size ≤ r
unfolding block_at
block_at-apart [] start end q r t hq hr lt = cc
block_at-apart (d ∷ bs) start end q r {b} {c} t hq hr lt = ground (
  arith,
  block_at-apart bs (start + block_size + d.size) end q r {b = b} {c = c} t.2,
  block_at-bounds bs (start + block_size + d.size) end q {b = b} t.2,
  block_at-bounds bs (start + block_size + d.size) end r {b = c} t.2,
)

behind-must_move : (b : Block) (g : Growth) (n : ℕ) → behind b g ≡ must_move n → g ≡ must_move n
behind-must_move b no_block n e = e
behind-must_move b big_enough n e = e
behind-must_move b (must_move m) n e = e
behind-must_move b (grown bs) n e = cc

-- `krealloc` moves a block only to make room, and copies the whole of it.
pub grow_from-must_move :
    (block size : ℕ) (bs : List Block) (old : ℕ) (c : Block)
    → block_at block bs ≡ some c
    → grow_from block size bs ≡ must_move old
    → (old ≡ c.size) × (old < size)
unfolding grow_from block_at grow_block
grow_from-must_move block size [] old c found e = cc
grow_from-must_move block size (b ∷ []) old c found e =
    ground (arith, behind-must_move b no_block old)
grow_from-must_move block size (b ∷ n ∷ bs) old c found e = elim (Bool-cases (b.addr == block)) [
  | inl here ↦ ground arith
  | inr there ↦
      grow_from-must_move block size (n ∷ bs) old c (ground arith)
        (behind-must_move b _ old (ground arith))
]

behind-no_block : (b : Block) (g : Growth) → behind b g ≡ no_block → g ≡ no_block
behind-no_block b no_block e = refl
behind-no_block b big_enough e = cc
behind-no_block b (must_move m) e = cc
behind-no_block b (grown bs) e = cc

pub grow_from-found :
    (block size : ℕ) (bs : List Block) (c : Block)
    → block_at block bs ≡ some c
    → grow_from block size bs ≢ no_block
unfolding grow_from block_at grow_block
grow_from-found block size [] c found e = cc
grow_from-found block size (b ∷ []) c found e = ground arith
grow_from-found block size (b ∷ n ∷ bs) c found e = elim (Bool-cases (b.addr == block)) [
  | inl here ↦ ground arith
  | inr there ↦
      grow_from-found block size (n ∷ bs) c (ground arith) (behind-no_block b _ (ground arith))
]
