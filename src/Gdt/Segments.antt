-- ===== src/Gdt/Segments.antt =====
-- What the processor reads from the descriptors.
use sojebos.Common.{
  ℕ, ◌+◌, ◌*◌, ◌/◌, ◌%◌, ◌^◌, ◌<◌, ◌≡◌, ◌≢◌, ◌-◌, refl, arith, true, sym, map, take, replicate, [],
  ◌∷◌,
}
use sojebos.Common.{some, List, length, get_or, set, ltb, lt→ltb}
use sojebos.Common.{length-set, get_or-set_self, get_or-set_ne}
use sojebos.Gdt.{GdtEntry, gate, gdt_set_gate, gdt_init, tss_init, tss_size}

abbrev pub segment_base : GdtEntry → ℕ
segment_base e = e.base_low + e.base_middle * 2 ^ 16 + e.base_high * 2 ^ 24

-- The last valid offset; with the granularity bit, in pages of 4096 bytes
abbrev pub segment_limit : GdtEntry → ℕ
segment_limit e = e.limit_low + e.granularity % 16 * 2 ^ 16

abbrev pub segment_flags : GdtEntry → ℕ
segment_flags e = e.granularity / 16

-- For an index in the table and 32-bit values, the processor reads the base, the low 20 bits of the
-- limit, the access byte and the four flags as they were given, and every other descriptor is kept.
pub gdt_set_gate_lem :
    (num base limit access gran : ℕ) (entries : List GdtEntry) (d : GdtEntry)
    → num < length entries
    → base < 2 ^ 32
    → gran < 256
    → (after : List GdtEntry) × (gdt_set_gate num base limit access gran entries ≡ some after)
      × (length after ≡ length entries)
      × (segment_base (get_or after num d) ≡ base)
      × (segment_limit (get_or after num d) ≡ limit % 2 ^ 20)
      × ((get_or after num d).access ≡ access)
      × (segment_flags (get_or after num d) ≡ gran / 16)
      × ((i : ℕ) → i ≢ num → get_or after i d ≡ get_or entries i d)
unfolding gdt_set_gate gate
gdt_set_gate_lem num base limit access gran entries d inside bb gb =
    let new = gate base limit access gran in
    let e : ltb num (length entries) ≡ true = lt→ltb _ _ inside in
    let here = get_or-set_self entries num new d inside in
    (
      set entries num new,
      rw e refl,
      length-set entries num new,
      rw here (omega (arith, bb)),
      rw here (omega arith),
      rw here refl,
      rw here (omega (arith, gb)),
      λ i ne. get_or-set_ne entries num i new d (λ k. ne (sym k)),
    )

abbrev pub privilege : GdtEntry → ℕ
privilege e = e.access / 32 % 4

-- `gdt_init` and `tss_init(5, 0x10, kesp)` succeed on any table of six descriptors. Then the kernel's
-- code and data have privilege 0 and the user's have privilege 3, each covers all 2 ^ 20 pages
-- from address 0, and descriptor 5 has the address of `tss_entry` and its last byte.
pub tss_init-gdt_init :
    (a b c d e f : GdtEntry) (tss_entry kesp : ℕ)
    → tss_entry < 2 ^ 32
    → (mid after : List GdtEntry) × (gdt_init (a ∷ b ∷ c ∷ d ∷ e ∷ f ∷ []) ≡ some mid)
      × (tss_init tss_entry 5 0x10 kesp mid
          ≡ some (record { ss0 = 0x10; esp0 = kesp; iomap_base = tss_size }, after))
      × (map privilege (take 5 after) ≡ 0 ∷ 0 ∷ 0 ∷ 3 ∷ 3 ∷ [])
      × (map segment_base (take 5 after) ≡ replicate 5 0)
      × (map segment_limit (take 5 after) ≡ 0 ∷ replicate 4 (2 ^ 20 - 1))
      × (segment_base (get_or after 5 f) ≡ tss_entry)
      × (segment_limit (get_or after 5 f) ≡ tss_size - 1)
unfolding gdt_init gdt_set_gate tss_init gate
tss_init-gdt_init a b c d e f tss_entry kesp h =
    (_, _, refl, refl, refl, refl, refl, omega (arith, h), refl)
