-- ===== src/Heap/Inv.antt =====
-- The shape of the block list: the blocks tile the heap without gap or overlap, every address and
-- size is a multiple of 4, and no two neighbours are both free.
use mathlib.Core.Path.{subst}
use sojebos.Common.{ℕ, ◌+◌, ◌%◌, ◌^◌, ◌≤◌, ◌<◌, ◌≡◌, refl, Bool, false, ◌&&◌}
use sojebos.Common.{Option, none, some, List, [], ◌∷◌, arith, ◌==◌, if◌then◌else◌}
use sojebos.Common.{inl, inr, Bool-cases}
use sojebos.Heap.{Block, block_size, kheap_init}

-- The blocks cover the bytes from `start` up to `end`, in order.
abbrev pub Tiles : ℕ → ℕ → List Block → Type 0
Tiles start end [] = start ≡ end
Tiles start end (b ∷ bs) =
    (b.addr ≡ start) × (b.size % 4 ≡ 0) × Tiles (start + block_size + b.size) end bs

-- No two neighbours are free; the flag says whether the block before the list is.
abbrev pub IsSeparated : Bool → List Block → Type 0
IsSeparated before [] = Unit
IsSeparated before (b ∷ bs) = ((before && b.free) ≡ false) × IsSeparated b.free bs

pub record IsValid (start end : ℕ) (blocks : List Block) : Type 0 where
  pub aligned : start % 4 ≡ 0
  pub positive : 0 < start
  pub in_space : end + 20 ≤ 2 ^ 32
  pub tiles : Tiles start end blocks
  pub separated : IsSeparated false blocks

-- The block whose header stands at an address.
unfoldable pub block_at : ℕ → List Block → Option Block
block_at a [] = none
block_at a (b ∷ bs) = if b.addr == a then some b else block_at a bs

-- The bytes of all free blocks, and the headers in use.
unfoldable pub free_bytes : List Block → ℕ
free_bytes [] = 0
free_bytes (b ∷ bs) = (if b.free then b.size else 0) + free_bytes bs

unfoldable pub used_bytes : List Block → ℕ
used_bytes [] = 0
used_bytes (b ∷ bs) = (if b.free then 0 else b.size) + used_bytes bs

unfoldable pub header_bytes : List Block → ℕ
header_bytes [] = 0
header_bytes (b ∷ bs) = block_size + header_bytes bs

-- The free bytes, the bytes handed out and the headers make up the heap.
pub bytes_add_up :
    (blocks : List Block) (start end : ℕ)
    → Tiles start end blocks
    → start + (free_bytes blocks + used_bytes blocks + header_bytes blocks) ≡ end
unfolding free_bytes used_bytes header_bytes
bytes_add_up [] start end t = omega arith
bytes_add_up (b ∷ bs) start end t =
    ground (arith, bytes_add_up bs (start + block_size + b.size) end)

-- What `kheap_init` builds is valid.
pub kheap_init-IsValid :
    (start size : ℕ)
    → 0 < start
    → start % 4 ≡ 0
    → size % 4 ≡ 0
    → block_size ≤ size
    → start + size + 20 ≤ 2 ^ 32
    → IsValid start (start + size) (kheap_init start size)
unfolding kheap_init
kheap_init-IsValid start size p a b le h = ground arith

pub Tiles-le : (blocks : List Block) (start end : ℕ) → Tiles start end blocks → start ≤ end
Tiles-le [] start end t = omega arith
Tiles-le (b ∷ bs) start end t = omega (arith, Tiles-le bs (start + block_size + b.size) end t.2)

pub Tiles-start : (bs : List Block) (end : ℕ) {a b : ℕ} → a ≡ b → Tiles a end bs → Tiles b end bs
Tiles-start bs end e t = subst (λ k. Tiles k end bs) e t

-- Behind a used block any separated list is separated.
pub IsSeparated-false :
    (before : Bool) (bs : List Block) → IsSeparated before bs → IsSeparated false bs
IsSeparated-false before [] s = tt
IsSeparated-false before (b ∷ bs) s = (refl, s.1)

-- A block found behind `start` stands at or behind it, and ends by `end`.
pub block_at-bounds :
    (bs : List Block) (start end q : ℕ) {b : Block}
    → Tiles start end bs
    → block_at q bs ≡ some b
    → (b.addr ≡ q) × (start ≤ q) × (q + block_size + b.size ≤ end)
unfolding block_at
block_at-bounds [] start end q t h = cc
block_at-bounds (c ∷ bs) start end q {b} t h = elim (Bool-cases (c.addr == q)) [
  | inl e ↦ ground (arith, Tiles-le bs (start + block_size + c.size) end t.2)
  | inr e ↦ ground (arith, block_at-bounds bs (start + block_size + c.size) end q {b = b} t.2)
]
