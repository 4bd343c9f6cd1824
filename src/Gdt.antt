-- ===== src/Gdt.antt =====
-- src/kernel/gdt: the segment descriptors and the task state segment.
--
-- The six descriptors are a list. An `or` of disjoint bits is written as a sum. `none` is an index
-- behind the table, where the C code writes all the same. Where `tss_entry` stands is the linker's
-- choice, and a parameter; loading the registers is left out.
pub mod Segments
pub mod Tests
use sojebos.Common.{ℕ, ◌+◌, ◌-◌, ◌*◌, ◌/◌, ◌%◌, ◌^◌, Option, none, some, List, length, set, ltb}
use sojebos.Common.{if◌then◌else◌}

infixl 1 ◌>>=◌
abbrev ◌>>=◌ : {A B : Type 0} → Option A → (A → Option B) → Option B
none >>= f = none
some a >>= f = f a

pub record GdtEntry : Type 0 where
  pub limit_low : ℕ
  pub base_low : ℕ
  pub base_middle : ℕ
  pub access : ℕ
  pub granularity : ℕ
  pub base_high : ℕ

-- The descriptor that `gdt_set_gate` writes
unfoldable pub gate : ℕ → ℕ → ℕ → ℕ → GdtEntry
gate base limit access gran = record {
  limit_low = limit % 2 ^ 16;
  base_low = base % 2 ^ 16;
  base_middle = base / 2 ^ 16 % 2 ^ 8;
  access = access;
  granularity = limit / 2 ^ 16 % 16 + gran / 16 % 16 * 16;
  base_high = base / 2 ^ 24 % 2 ^ 8;
}

unfoldable pub gdt_set_gate : ℕ → ℕ → ℕ → ℕ → ℕ → List GdtEntry → Option (List GdtEntry)
gdt_set_gate num base limit access gran entries =
    if ltb num (length entries) then some (set entries num (gate base limit access gran)) else none

unfoldable pub gdt_init : List GdtEntry → Option (List GdtEntry)
gdt_init entries = do
  with_null ← gdt_set_gate 0 0 0 0 0 entries
  with_code ← gdt_set_gate 1 0 0xFFFFFFFF 0x9A 0xCF with_null
  with_data ← gdt_set_gate 2 0 0xFFFFFFFF 0x92 0xCF with_code
  with_user_code ← gdt_set_gate 3 0 0xFFFFFFFF 0xFA 0xCF with_data
  gdt_set_gate 4 0 0xFFFFFFFF 0xF2 0xCF with_user_code

-- The fields of `tss_entry_t` that the kernel sets; the others are zero.
pub record TssEntry : Type 0 where
  pub ss0 : ℕ
  pub esp0 : ℕ
  pub iomap_base : ℕ

abbrev pub tss_size : ℕ
tss_size = 104

unfoldable pub tss_init : ℕ → ℕ → ℕ → ℕ → List GdtEntry → Option (TssEntry × List GdtEntry)
tss_init tss_entry idx kss kesp entries = do
  with_tss ← gdt_set_gate idx tss_entry (tss_size - 1) 0x89 0 entries
  some (record { ss0 = kss; esp0 = kesp; iomap_base = tss_size }, with_tss)

unfoldable pub tss_set_stack : ℕ → ℕ → TssEntry → TssEntry
tss_set_stack kss kesp tss = record tss { ss0 = kss; esp0 = kesp }
