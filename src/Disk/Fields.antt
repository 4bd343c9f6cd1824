-- ===== src/Disk/Fields.antt =====
-- Fields of 16 and 32 bits in a buffer, and what a write to a sector is to later reads.
use sojebos.Common.{ℕ, ◌+◌, ◌*◌, ◌/◌, ◌%◌, ◌^◌, ◌≤◌, ◌<◌, ◌≡◌, ◌⊎◌, refl, List, arith, true, ◌∙◌}
use sojebos.Common.{
  get_or, set, length, length-set, get_or-set_self, get_or-set_ne, bit_or, ◌==◌, if◌then◌else◌,
  ==_iff,
}
use sojebos.Common.Bits.{all_below, all_below_sound}
use sojebos.Disk.{Disk, ata_select, selected, disk_read, disk_write}

unfoldable pub get_u16 : List ℕ → ℕ → ℕ
get_u16 b o = get_or b o 0 + 256 * get_or b (o + 1) 0

unfoldable pub get_u32 : List ℕ → ℕ → ℕ
get_u32 b o =
    get_or b o 0
    + 256 * (get_or b (o + 1) 0 + 256 * (get_or b (o + 2) 0 + 256 * get_or b (o + 3) 0))

unfoldable pub put_u16 : List ℕ → ℕ → ℕ → List ℕ
put_u16 b o v = set (set b o (v % 256)) (o + 1) (v / 256 % 256)

unfoldable pub put_u32 : List ℕ → ℕ → ℕ → List ℕ
put_u32 b o v =
    set (set (set (set b o (v % 256)) (o + 1) (v / 256 % 256)) (o + 2) (v / 65536 % 256)) (o + 3)
      (v / 16777216 % 256)

pub length-put_u32 : (b : List ℕ) (o v : ℕ) → length (put_u32 b o v) ≡ length b
unfolding put_u32
length-put_u32 b o v = rw (length-set, length-set, length-set, length-set)

pub length-put_u16 : (b : List ℕ) (o v : ℕ) → length (put_u16 b o v) ≡ length b
unfolding put_u16
length-put_u16 b o v = rw (length-set, length-set)

-- The four bytes of a field, read back one at a time.
module _ (b : List ℕ) (o v : ℕ) (h : o + 4 ≤ length b) where
  pub get_or-put_u32 :
      (get_or (put_u32 b o v) o 0 ≡ v % 256)
      × (get_or (put_u32 b o v) (o + 1) 0 ≡ v / 256 % 256)
      × (get_or (put_u32 b o v) (o + 2) 0 ≡ v / 65536 % 256)
      × (get_or (put_u32 b o v) (o + 3) 0 ≡ v / 16777216 % 256)
  unfolding put_u32
  get_or-put_u32 =
      let b0 = set b o (v % 256) in
      let b1 = set b0 (o + 1) (v / 256 % 256) in
      let b2 = set b1 (o + 2) (v / 65536 % 256) in
      let l0 = length-set b o (v % 256) in
      let l1 = length-set b0 (o + 1) (v / 256 % 256) in
      let l2 = length-set b1 (o + 2) (v / 65536 % 256) in
      let w = v / 16777216 % 256 in
      (
        get_or-set_ne b2 (o + 3) o w 0 (omega arith)
            ∙ get_or-set_ne b1 (o + 2) o _ 0 (omega arith)
            ∙ get_or-set_ne b0 (o + 1) o _ 0 (omega arith)
            ∙ get_or-set_self b o _ 0 (omega arith),
        get_or-set_ne b2 (o + 3) (o + 1) w 0 (omega arith)
            ∙ get_or-set_ne b1 (o + 2) (o + 1) _ 0 (omega arith)
            ∙ get_or-set_self b0 (o + 1) _ 0 (omega (arith, l0)),
        get_or-set_ne b2 (o + 3) (o + 2) w 0 (omega arith)
            ∙ get_or-set_self b1 (o + 2) _ 0 (omega (arith, l0, l1)),
        get_or-set_self b2 (o + 3) w 0 (omega (arith, l0, l1, l2)),
      )

  pub get_u32-put_u32 : get_u32 (put_u32 b o v) o ≡ v % 2 ^ 32
  unfolding get_u32
  get_u32-put_u32 = omega (arith, get_or-put_u32)

pub get_or-put_u32_ne :
    (b : List ℕ) (o v j : ℕ) → (j < o) ⊎ (o + 4 ≤ j) → get_or (put_u32 b o v) j 0 ≡ get_or b j 0
unfolding put_u32
get_or-put_u32_ne b o v j h =
    get_or-set_ne _ (o + 3) j _ 0 (omega arith)
    ∙ get_or-set_ne _ (o + 2) j _ 0 (omega arith)
    ∙ get_or-set_ne _ (o + 1) j _ 0 (omega arith)
    ∙ get_or-set_ne b o j _ 0 (omega arith)

pub get_u32-put_u32_ne :
    (b : List ℕ) (o v j : ℕ) → (j + 4 ≤ o) ⊎ (o + 4 ≤ j) → get_u32 (put_u32 b o v) j ≡ get_u32 b j
unfolding get_u32
get_u32-put_u32_ne b o v j h = rw (
  get_or-put_u32_ne b o v j (omega arith),
  get_or-put_u32_ne b o v (j + 1) (omega arith),
  get_or-put_u32_ne b o v (j + 2) (omega arith),
  get_or-put_u32_ne b o v (j + 3) (omega arith),
)

drive_table : all_below 16 (λ x. bit_or 0xe0 x % 16 == x) ≡ true
unfolding all_below
drive_table = refl

-- The registers select the sector of the low 28 bits.
pub selected-ata_select : (lba : ℕ) → selected (ata_select lba) ≡ lba % 2 ^ 28
unfolding selected ata_select
selected-ata_select lba =
    let x = lba / 2 ^ 24 % 16 in
    let e = (==_iff (bit_or 0xe0 x % 16) x).0 (all_below_sound 16 _ x drive_table (omega arith)) in
    omega (arith, e)

-- A read sees the last write to its sector, and the others are as they were.
pub disk_read-write :
    (d : Disk) (s t : ℕ) (b : List ℕ)
    → disk_read (disk_write d s b) t ≡ (if t % 2 ^ 28 == s % 2 ^ 28 then b else disk_read d t)
unfolding disk_read disk_write
disk_read-write d s t b = rw (selected-ata_select s, selected-ata_select t)
