-- ===== src/Heap/Live.antt =====
-- What the caller of `kmalloc` owns, and what it leaves alone.
use sojebos.Common.{ℕ, ◌+◌, ◌≤◌, ◌≡◌, refl, true, false, inl, inr, ◌++◌, ◌^◌}
use sojebos.Common.{some, List, [], ◌∷◌, arith, Bool-cases, sub32, ◌≢◌}
use sojebos.Heap.{Block, block_size, align, carve, kmalloc}
use sojebos.Heap.Inv.{Tiles, IsValid, block_at, block_at-bounds, Tiles-le}
use sojebos.Heap.Malloc.{kmalloc-FirstFit, fits-le, splits}

block_at-carve_self :
    (size : ℕ) (b : Block) (bs : List Block)
    → size ≤ b.size
    → (c : Block) × (block_at b.addr (carve size b bs) ≡ some c)
      × (c.free ≡ false)
      × (size ≤ c.size)
      × (c.size ≤ b.size)
unfolding block_at carve
block_at-carve_self size b bs le = elim (Bool-cases (splits size b)) [
  | inl e ↦ rw e (record b { size = size; free = false }, ground arith, refl, ground arith, le)
  | inr e ↦ rw e (record b { free = false }, ground arith, refl, le, ground arith)
]

-- A block other than the carved one is found as before.
block_at-carve :
    (size : ℕ) (b : Block) (bs : List Block) (start end q : ℕ) {c : Block}
    → Tiles start end (b ∷ bs)
    → end + 20 ≤ 2 ^ 32
    → b.free ≡ true
    → block_at q (b ∷ bs) ≡ some c
    → c.free ≡ false
    → block_at q (carve size b bs) ≡ some c
unfolding block_at carve
block_at-carve size b bs start end q {c} t h fr found used =
    let behind = block_at-bounds bs (start + block_size + b.size) end q {b = c} t.2 in
    elim (Bool-cases (splits size b)) [
      | inr e ↦ rw e (ground arith)
      | inl e ↦ rw e (ground (arith, behind))
    ]

block_at-carve_mid :
    (size : ℕ) (before : List Block) (b : Block) (bs : List Block) (start end q : ℕ) {c : Block}
    → Tiles start end (before ++ b ∷ bs)
    → end + 20 ≤ 2 ^ 32
    → b.free ≡ true
    → block_at q (before ++ b ∷ bs) ≡ some c
    → c.free ≡ false
    → block_at q (before ++ carve size b bs) ≡ some c
unfolding block_at
block_at-carve_mid size [] b bs start end q t h fr found used =
    block_at-carve size b bs start end q t h fr found used
block_at-carve_mid size (d ∷ ds) b bs start end q {c} t h fr found used =
    ground
      (arith, block_at-carve_mid size ds b bs (start + block_size + d.size) end q {c = c} t.2 h fr)

pub mid-le :
    (before : List Block) (b : Block) (bs : List Block) (start end : ℕ)
    → Tiles start end (before ++ b ∷ bs)
    → (start ≤ b.addr) × (b.addr + block_size + b.size ≤ end)
mid-le [] b bs start end t = ground (arith, Tiles-le bs (start + block_size + b.size) end t.2)
mid-le (d ∷ ds) b bs start end t =
    omega (arith, mid-le ds b bs (start + block_size + d.size) end t.2)

-- The block at the head of the middle is found behind blocks at lower addresses.
block_at-mid :
    (before : List Block) (b : Block) (bs l : List Block) (start end : ℕ)
    → Tiles start end (before ++ b ∷ bs)
    → block_at b.addr (before ++ l) ≡ block_at b.addr l
unfolding block_at
block_at-mid [] b bs l start end t = refl
block_at-mid (d ∷ ds) b bs l start end t =
    let ih = block_at-mid ds b bs l (start + block_size + d.size) end t.2 in
    let far = mid-le ds b bs (start + block_size + d.size) end t.2 in ground (arith, ih, far)

-- What the caller gets: a header just below the pointer, marked as used, with room for the request
-- rounded up, inside the heap; the header that stood there was free.
pub record Grants (start end size : ℕ) (blocks : List Block) (p : ℕ) (after : List Block)
    : Type 0 where
  pub old : Block
  pub new : Block
  pub was_free : (block_at (sub32 p block_size) blocks ≡ some old) × (old.free ≡ true)
  pub is_used : (block_at (sub32 p block_size) after ≡ some new) × (new.free ≡ false)
  pub room : align size ≤ new.size
  pub not_null : p ≢ 0
  pub inside : (start + block_size ≤ p) × (p + new.size ≤ end)

-- On a valid heap, a pointer that `kmalloc` returns is not null, lies inside the heap with as many
-- bytes behind it as the request rounded up, and its header, which was a free block's, is in use.
pub kmalloc-Grants :
    (start end size : ℕ) (blocks : List Block) {p : ℕ} {after : List Block}
    → IsValid start end blocks
    → kmalloc size blocks ≡ some (p, after)
    → Grants start end size blocks p after
unfolding block_at
kmalloc-Grants start end size blocks {p} {after} v h =
    let f = kmalloc-FirstFit size blocks h in
    let b = f.taken in
    let fit = fits-le (align size) b f.chosen in
    let t : Tiles start end (f.before ++ b ∷ f.rest) = rw f.blocks_eq at v.tiles in
    let near = mid-le f.before b f.rest start end t in
    let header : sub32 p block_size ≡ b.addr = omega (arith, f.pointer_eq, v.in_space) in
    let (c, found, used, room, le) = block_at-carve_self (align size) b f.rest fit.1 in
    let old : block_at b.addr (b ∷ f.rest) ≡ some b = ground arith in
    record {
      old = b;
      new = c;
      was_free =
          (rw (header, f.blocks_eq, block_at-mid f.before b f.rest _ start end t) old, fit.0);
      is_used = (rw (header, f.after_eq, block_at-mid f.before b f.rest _ start end t) found, used);
      room = room;
      not_null = omega (arith, f.pointer_eq, v.in_space);
      inside = (omega (arith, f.pointer_eq, v.in_space), omega (arith, f.pointer_eq, v.in_space));
    }

-- On a valid heap, a `kmalloc` that succeeds leaves every block in use where it is, with its size.
pub kmalloc-keeps_used :
    (start end size : ℕ) (blocks : List Block) {p : ℕ} {after : List Block} (q : ℕ) {c : Block}
    → IsValid start end blocks
    → kmalloc size blocks ≡ some (p, after)
    → block_at q blocks ≡ some c
    → c.free ≡ false
    → block_at q after ≡ some c
kmalloc-keeps_used start end size blocks q v h found used =
    let f = kmalloc-FirstFit size blocks h in
    let fit = fits-le (align size) f.taken f.chosen in
    rw f.after_eq (
      block_at-carve_mid (align size) f.before f.taken f.rest start end q
        (rw f.blocks_eq at v.tiles) v.in_space fit.0 (rw f.blocks_eq at found) used)
