-- ===== src/Heap/Malloc.antt =====
-- `kmalloc`: first fit, and what an allocation does to the blocks.

use sojebos.Common.{ℕ, ◌+◌, ◌%◌, ◌^◌, ◌≤◌, ◌≡◌, refl, Bool, true, false, ◌&&◌}
use sojebos.Common.{none, some, List, [], ◌∷◌, ◌++◌, inl, inr, arith, leb}
use sojebos.Common.{Bool-cases, Option-cases, ap, All, ◌↔◌, u32}
use sojebos.Heap.{Block, block_size, alignment, align, carve, kmalloc_from, kmalloc}
use sojebos.Heap.Inv.{Tiles, IsSeparated, IsValid, Tiles-le, Tiles-start, IsSeparated-false}

-- A block that the search passes over.
abbrev pub fits : ℕ → Block → Bool
fits size b = b.free && leb size b.size

-- With room for another header, the second half starts where the first ends.
abbrev pub splits : ℕ → Block → Bool
splits size b = leb (u32 (size + block_size + alignment)) b.size

pub carve-Tiles :
    (size : ℕ) (b : Block) (bs : List Block) (start end : ℕ)
    → Tiles start end (b ∷ bs)
    → end + 20 ≤ 2 ^ 32
    → size % 4 ≡ 0
    → size ≤ b.size
    → Tiles start end (carve size b bs)
unfolding carve
carve-Tiles size b bs start end t h four le =
    let bound = Tiles-le bs (start + block_size + b.size) end t.2 in
    elim (Bool-cases (splits size b)) [
      | inr e ↦ rw e t
      | inl e ↦
          let fit : size + 20 ≤ b.size = ground arith in
          rw e (t.0, four, (omega arith, omega arith, Tiles-start bs end (omega arith) t.2))
    ]

carve-IsSeparated :
    (before : Bool) (size : ℕ) (b : Block) (bs : List Block)
    → b.free ≡ true
    → IsSeparated before (b ∷ bs)
    → IsSeparated before (carve size b bs)
unfolding carve
carve-IsSeparated before size b bs f s =
    let after : IsSeparated true bs = rw f at s.1 in
    elim (Bool-cases (splits size b)) [
      | inr e ↦ rw e (ground arith, IsSeparated-false true bs after)
      | inl e ↦ rw e (ground arith, (refl, after))
    ]

-- The block taken by a successful search, and what surrounds it: `kmalloc` takes the first block
-- that fits, returns the address behind its header and carves that block alone.
pub record FirstFit (size : ℕ) (blocks : List Block) (p : ℕ) (after : List Block) : Type 0 where
  pub before : List Block
  pub taken : Block
  pub rest : List Block
  pub passed : All (λ b. fits size b ≡ false) before
  pub chosen : fits size taken ≡ true
  pub blocks_eq : blocks ≡ before ++ taken ∷ rest
  pub pointer_eq : p ≡ u32 (taken.addr + block_size)
  pub after_eq : after ≡ before ++ carve size taken rest

kmalloc_from-FirstFit :
    (size : ℕ) (blocks : List Block) {p : ℕ} {after : List Block}
    → kmalloc_from size blocks ≡ some (p, after)
    → FirstFit size blocks p after
unfolding kmalloc_from
kmalloc_from-FirstFit size [] h = cc
kmalloc_from-FirstFit size (b ∷ bs) h = elim (Bool-cases (fits size b)) [
  | inl e ↦ record {
    before = [];
    taken = b;
    rest = bs;
    passed = tt;
    chosen = e;
    blocks_eq = refl;
    pointer_eq = ground arith;
    after_eq = ground arith;
  }
  | inr e ↦ elim (Option-cases (kmalloc_from size bs)) [
    | inl m ↦ ground arith
    | inr (r, m) ↦
        let f = kmalloc_from-FirstFit size bs {p = r.0} {after = r.1} m in
        record {
          before = b ∷ f.before;
          taken = f.taken;
          rest = f.rest;
          passed = (e, f.passed);
          chosen = f.chosen;
          blocks_eq = ap (λ k. b ∷ k) f.blocks_eq;
          pointer_eq = ground arith;
          after_eq = ground arith;
        }
  ]
]

-- `kmalloc` fails exactly when no block fits.
pub kmalloc-none_iff :
    (size : ℕ) (blocks : List Block)
    → (kmalloc size blocks ≡ none) ↔ All (λ b. fits (align size) b ≡ false) blocks
unfolding kmalloc kmalloc_from
kmalloc-none_iff size [] = (λ _. tt, λ _. refl)
kmalloc-none_iff size (b ∷ bs) =
    let ih = kmalloc-none_iff size bs in
    (λ h. (ground arith, ih.0 (ground arith)), λ h. ground (arith, ih.1 h.1))

-- A successful `kmalloc` takes the first block that fits and carves that block alone.
pub kmalloc-FirstFit :
    (size : ℕ) (blocks : List Block) {p : ℕ} {after : List Block}
    → kmalloc size blocks ≡ some (p, after)
    → FirstFit (align size) blocks p after
unfolding kmalloc
kmalloc-FirstFit size blocks h = kmalloc_from-FirstFit (align size) blocks h

carve_at-Tiles :
    (size : ℕ) (before : List Block) (b : Block) (bs : List Block) (start end : ℕ)
    → Tiles start end (before ++ b ∷ bs)
    → end + 20 ≤ 2 ^ 32
    → size % 4 ≡ 0
    → size ≤ b.size
    → Tiles start end (before ++ carve size b bs)
carve_at-Tiles size [] b bs start end t h four le = carve-Tiles size b bs start end t h four le
carve_at-Tiles size (c ∷ cs) b bs start end t h four le =
    (t.0, t.1, carve_at-Tiles size cs b bs (start + block_size + c.size) end t.2 h four le)

carve_at-IsSeparated :
    (flag : Bool) (size : ℕ) (before : List Block) (b : Block) (bs : List Block)
    → b.free ≡ true
    → IsSeparated flag (before ++ b ∷ bs)
    → IsSeparated flag (before ++ carve size b bs)
carve_at-IsSeparated flag size [] b bs f s = carve-IsSeparated flag size b bs f s
carve_at-IsSeparated flag size (c ∷ cs) b bs f s =
    (s.0, carve_at-IsSeparated c.free size cs b bs f s.1)

pub fits-le : (size : ℕ) (b : Block) → fits size b ≡ true → (b.free ≡ true) × (size ≤ b.size)
fits-le size b h = ground arith

-- A `kmalloc` that succeeds keeps a valid list valid.
pub kmalloc-IsValid :
    (start end size : ℕ) (blocks : List Block) {p : ℕ} {after : List Block}
    → IsValid start end blocks
    → kmalloc size blocks ≡ some (p, after)
    → IsValid start end after
kmalloc-IsValid start end size blocks v h =
    let f = kmalloc-FirstFit size blocks h in
    let fit = fits-le (align size) f.taken f.chosen in
    record {
      aligned = v.aligned;
      positive = v.positive;
      in_space = v.in_space;
      tiles = rw f.after_eq (
          carve_at-Tiles (align size) f.before f.taken f.rest start end (rw f.blocks_eq at v.tiles)
            v.in_space (omega arith) fit.1);
      separated = rw f.after_eq (
          carve_at-IsSeparated false (align size) f.before f.taken f.rest fit.0
            (rw f.blocks_eq at v.separated));
    }
