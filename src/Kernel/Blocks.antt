-- ===== src/Kernel/Blocks.antt =====
-- The blocks of the heap that the start of the system takes.
use mathlib.Core.Option.{some_inj}
use sojebos.Apps.{World}
use sojebos.Common.{
  ℕ, ap, ◌≤◌, ◌≡◌, ◌≢◌, sym, ◌∙◌, ◌⊎◌, arith, true, false, sub32, some, List, replicate, ltb,
}
use sojebos.Heap.{Block, align, block_size, kmalloc}
use sojebos.Heap.Inv.{IsValid, block_at}
use sojebos.Heap.Live.{kmalloc-Grants, kmalloc-keeps_used}
use sojebos.Rtl8139.Start.{rx_total_size, configure}

-- A pointer to a block in use with room for so many bytes
abbrev pub Holds : ℕ → ℕ → List Block → Type 0
Holds p size bs =
    (c : Block) × (block_at (sub32 p block_size) bs ≡ some c) × (c.free ≡ false) × (size ≤ c.size)

-- What was taken from the heap: the array of the vector of apps and, where there is a card, the receive
-- buffer, another block, whose address the card is set up with
abbrev pub Taken : ℕ → World → World → Type 0
Taken io before w =
    (p : ℕ) × Holds p 128 w.system.machine.blocks
    × ((ltb 0 io ≡ false)
        ⊎ ((q : ℕ) × (q ≢ p)
            × Holds q rx_total_size w.system.machine.blocks
            × (w.card
                ≡ configure io q
                    (record before.card { io_base = io; rx_buffer = replicate rx_total_size 0 }))))

module _ (start end : ℕ) (bs : List Block) (v : IsValid start end bs) (n : ℕ) where
  pub taken-Holds :
      {p : ℕ} {after : List Block} (size : ℕ)
      → kmalloc size bs ≡ some (p, after)
      → size ≤ align size
      → Holds p size after
  taken-Holds size e le =
      let g = kmalloc-Grants start end size bs v e in
      (g.new, g.is_used.0, g.is_used.1, omega (arith, le, g.room))

  -- A block that was held is still held, and the new one is another.
  pub kept-Holds :
      {p q : ℕ} {after : List Block} (size : ℕ)
      → Holds p n bs
      → kmalloc size bs ≡ some (q, after)
      → (q ≢ p) × Holds p n after
  kept-Holds size (c, at, used, le) e =
      let g = kmalloc-Grants start end size bs v e in
      (
        λ same.
            let found : some g.old ≡ some c =
              sym g.was_free.0 ∙ ap (λ r. block_at (sub32 r block_size) bs) same ∙ at in
            let free = ap (λ b. b.free) (some_inj.0 found) in
            absurd (let t : c.free ≡ true = sym free ∙ g.was_free.1 in ground arith),
        (c, kmalloc-keeps_used start end size bs _ v e at used, used, le),
      )

pub apps_aligned : 128 ≤ align 128
unfolding align
apps_aligned = omega arith

pub packets_aligned : rx_total_size ≤ align rx_total_size
unfolding align
packets_aligned = omega arith
