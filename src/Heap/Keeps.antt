-- ===== src/Heap/Keeps.antt =====
-- What `kfree` leaves alone: the blocks in use.
use sojebos.Common.{ℕ, ◌≡◌, refl, true, false, inl, inr}
use sojebos.Common.{
  some, List, [], ◌∷◌, arith, ◌==◌, if◌then◌else◌, Bool-cases, sub32, ◌≢◌, Option-cases,
}
use sojebos.Heap.{Block, block_size, join_next, join_prev, free_after, free_block, kfree}
use sojebos.Heap.Free.{HeadIsFree}
use sojebos.Heap.Inv.{block_at}

pub join_next-keeps :
    (b : Block) (bs : List Block) (q : ℕ) {c : Block}
    → block_at q bs ≡ some c
    → c.free ≡ false
    → b.addr ≢ q
    → block_at q (join_next b bs) ≡ some c
unfolding join_next block_at
join_next-keeps b [] q h used ne = cc
join_next-keeps b (n ∷ rest) q h used ne = ground arith

join_next-HeadIsFree : (b : Block) (bs : List Block) → b.free ≡ true → HeadIsFree (join_next b bs)
unfolding join_next
join_next-HeadIsFree b [] f = f
join_next-HeadIsFree b (n ∷ rest) f = elim (Bool-cases n.free) [ inl e ↦ rw e f | inr e ↦ rw e f ]

join_prev-keeps :
    (p : Block) (bs : List Block) (q : ℕ) {c : Block}
    → HeadIsFree bs
    → (if p.addr == q then some p else block_at q bs) ≡ some c
    → c.free ≡ false
    → block_at q (join_prev p bs) ≡ some c
unfolding join_prev block_at
join_prev-keeps p [] q f h used = ground arith
join_prev-keeps p (n ∷ rest) q f h used = ground arith

free_after-keeps :
    (block : ℕ) (prev : Block) (bs after : List Block) (q : ℕ) {c : Block}
    → free_after block prev bs ≡ some after
    → block_at q (prev ∷ bs) ≡ some c
    → c.free ≡ false
    → q ≢ block
    → block_at q after ≡ some c
unfolding free_after block_at
free_after-keeps block prev [] after q e h used ne = cc
free_after-keeps block prev (b ∷ bs) after q {c} e h used ne = elim (Bool-cases (b.addr == block)) [
  | inl here ↦
      let b' : Block = record b { free = true } in
      let eq : join_prev prev (join_next b' bs) ≡ after = ground arith in
      rw (← eq) (
        join_prev-keeps prev (join_next b' bs) q {c = c} (join_next-HeadIsFree b' bs refl)
          (elim (Bool-cases (prev.addr == q)) [
            | inl at_prev ↦ rw at_prev (ground arith)
            | inr off_prev ↦
                rw off_prev (join_next-keeps b' bs q {c = c} (ground arith) used (ground arith))
          ])
          used)
  | inr there ↦ elim (Option-cases (free_after block b bs)) [
    | inl no_block ↦ ground arith
    | inr (r, found) ↦
        let eq : prev ∷ r ≡ after = ground arith in
        let ih = free_after-keeps block b bs r q {c = c} found in
        rw (← eq) (elim (Bool-cases (prev.addr == q)) [
          | inl at_prev ↦ rw at_prev (ground arith)
          | inr off_prev ↦ rw off_prev (ih (ground arith) used ne)
        ])
  ]
]

-- A `kfree` of NULL or of a pointer behind a header leaves every other block in use where it is, with
-- its size.
pub kfree-keeps_used :
    (ptr : ℕ) (blocks : List Block) {after : List Block} (q : ℕ) {c : Block}
    → kfree ptr blocks ≡ some after
    → block_at q blocks ≡ some c
    → c.free ≡ false
    → q ≢ sub32 ptr block_size
    → block_at q after ≡ some c
unfolding kfree free_block block_at
kfree-keeps_used ptr [] q e h used ne = ground arith
kfree-keeps_used ptr (b ∷ bs) {after} q {c} e h used ne = elim (Bool-cases (ptr == 0)) [
  | inl null ↦ ground arith
  | inr other ↦ elim (Bool-cases (b.addr == sub32 ptr block_size)) [
    | inl here ↦
        let b' : Block = record b { free = true } in
        let eq : join_next b' bs ≡ after = ground arith in
        rw (← eq) (join_next-keeps b' bs q {c = c} (ground arith) used (ground arith))
    | inr there ↦
        free_after-keeps (sub32 ptr block_size) b bs after q {c = c} (ground arith) h used ne
  ]
]
