-- ===== src/Paging.antt =====
-- src/kernel/paging/paging.c and paging.h: the bitmap of physical frames and the page tables.
--
-- Physical memory is a function from the address of a 32-bit word to the word. Before paging is on the
-- kernel writes it directly, in `paging_init`; afterwards each write goes through the page tables, as
-- they are at that moment: a translation that the processor keeps from before is not modelled. An `or` of disjoint bits is written as a sum. The
-- address of `first_page_tables` is the linker's, and a parameter.
pub mod Alloc
pub mod Frames
pub mod Ways
pub mod Tables
pub mod Store
pub mod Map
pub mod User
pub mod Init
pub mod Identity
pub mod Walk
pub mod Tests
use sojebos.Common.{ℕ, zero, suc, ◌+◌, ◌-◌, ◌*◌, ◌/◌, ◌%◌, ◌^◌, Bool, not, bit_or, bit_and}
use sojebos.Common.{Option, none, some, List, replicate, get_or, set}
use sojebos.Common.{ltb, leb, ◌==◌, if◌then◌else◌, u32}

abbrev pub page_size : ℕ
page_size = 4096

abbrev pub total_frames : ℕ
total_frames = 16384

abbrev pub bitmap_size : ℕ
bitmap_size = 512

unfoldable pub bitmap_set : ℕ → List ℕ → List ℕ
bitmap_set i bm = set bm (i / 32) (bit_or (get_or bm (i / 32) 0) (2 ^ (i % 32)))

unfoldable pub bitmap_clear : ℕ → List ℕ → List ℕ
bitmap_clear i bm = set bm (i / 32) (bit_and (get_or bm (i / 32) 0) (2 ^ 32 - 1 - 2 ^ (i % 32)))

unfoldable pub bitmap_test : ℕ → List ℕ → Bool
bitmap_test i bm = not (bit_and (get_or bm (i / 32) 0) (2 ^ (i % 32)) == 0)

-- The loop of `alloc_frame`: `n` frames from frame `i`. NULL is 0.
unfoldable pub alloc_from : ℕ → ℕ → List ℕ → ℕ × List ℕ
alloc_from zero i bm = (0, bm)
alloc_from (suc n) i bm =
    let rest = alloc_from n (i + 1) bm in
    if not (bitmap_test i bm) then (i * page_size, bitmap_set i bm) else rest

unfoldable pub alloc_frame : List ℕ → ℕ × List ℕ
alloc_frame bm = alloc_from total_frames 0 bm

-- `none`: the index lies behind the bitmap, and the C code writes there.
unfoldable pub free_frame : ℕ → List ℕ → Option (List ℕ)
unfolding bitmap_clear
free_frame physaddr bm =
    if ltb (physaddr / page_size / 32) bitmap_size
    then some (bitmap_clear (physaddr / page_size) bm)
    else none

pub record Paging : Type 0 where
  pub frames : List ℕ
  pub directory : List ℕ
  pub memory : ℕ → ℕ

unfoldable pub write_word : ℕ → ℕ → (ℕ → ℕ) → ℕ → ℕ
write_word addr v m q = if q == addr then v else m q

-- `paging_init`: frames below the kernel's end
unfoldable pub reserve : ℕ → ℕ → List ℕ → List ℕ
unfolding bitmap_set
reserve zero i bm = bm
reserve (suc n) i bm = reserve n (i + 1) (bitmap_set i bm)

-- `paging_init`: one table of the identity map, `n` entries from `address`
unfoldable pub identity_entries : ℕ → ℕ → ℕ → (ℕ → ℕ) → ℕ → ℕ
unfolding write_word
identity_entries zero entry address m = m
identity_entries (suc n) entry address m =
    identity_entries n (entry + 4) (u32 (address + page_size)) (write_word entry (address + 3) m)

-- `paging_init`: the tables, and their entries in the directory
unfoldable pub identity_tables : ℕ → ℕ → ℕ → Paging → Paging
identity_tables zero i tables s = s
identity_tables (suc n) i tables s = identity_tables n (i + 1) tables (record s {
  directory = set s.directory i (tables + i * page_size + 7);
  memory = identity_entries 1024 (tables + i * page_size) (i * 1024 * page_size) s.memory;
})

-- `none`: the kernel's end lies beyond the frames that the bitmap counts.
unfoldable pub paging_init : ℕ → ℕ → (ℕ → ℕ) → Option Paging
paging_init tables kernel_end m =
    let reserved = u32 (kernel_end + page_size - 1) / page_size in
    if leb reserved total_frames
    then some (
        identity_tables 4 0 tables (record {
          frames = reserve reserved 0 (replicate bitmap_size 0);
          directory = replicate 1024 2;
          memory = m;
        }))
    else none

-- The word of a table that an address selects
abbrev pub slot : ℕ → ℕ → ℕ
slot entry vaddr = entry / 4096 * 4096 + 4 * (vaddr / 2 ^ 12 % 1024)

abbrev pub directory_entry : Paging → ℕ → ℕ
directory_entry s vaddr = get_or s.directory (vaddr / 2 ^ 22) 0

-- Where the processor goes for an address; `none` is a page fault.
unfoldable pub walk : Paging → ℕ → Option ℕ
walk s vaddr =
    let pte = s.memory (slot (directory_entry s vaddr) vaddr) in
    if directory_entry s vaddr % 2 == 1
    then if pte % 2 == 1 then some (pte / 4096 * 4096 + vaddr % 4096) else none
    else none

-- A word written by the kernel, which goes through the page tables; `none` is a page fault.
unfoldable pub store : ℕ → ℕ → Paging → Option Paging
store addr v s = elim (walk s addr) [
  | none ↦ none
  | some p ↦ some (record s { memory = write_word p v s.memory })
]

-- `n` words from an address set to 0, through the page tables
unfoldable pub clear_through : ℕ → ℕ → Paging → Option Paging
clear_through zero addr s = some s
clear_through (suc n) addr s = elim (store addr 0 s) [
  | none ↦ none
  | some s' ↦ clear_through n (addr + 4) s'
]

-- The end of `map_page`, with the table at `table`
unfoldable pub store_entry : ℕ → ℕ → ℕ → ℕ → Paging → Option Paging
store_entry table vaddr paddr flags s =
    store (table + 4 * (vaddr / 2 ^ 12 % 1024)) (paddr / 4096 * 4096 + flags % 4096) s

-- `none`: a page fault. Interrupts for it are not set up, and the processor stops.
unfoldable pub map_page : ℕ → ℕ → ℕ → Paging → Option Paging
map_page paddr vaddr flags s =
    let entry = directory_entry s vaddr in
    let r = alloc_frame s.frames in
    let with_table : Option Paging = elim (clear_through 1024 r.0 (record s { frames = r.1 })) [
      | none ↦ none
      | some s' ↦
          store_entry r.0 vaddr paddr flags
            (record s' { directory = set s'.directory (vaddr / 2 ^ 22) (r.0 + 7) })
    ] in
    if entry % 2 == 1
    then store_entry (entry / 4096 * 4096) vaddr paddr flags s
    else if r.0 == 0
    then some (record s { frames = r.1 })
    else with_table

-- One round of the loop of `paging_map_user_memory`
unfoldable pub map_user_page : ℕ → Paging → Option Paging
map_user_page vaddr s =
    let r = alloc_frame s.frames in
    let filled : Option Paging = elim (clear_through 1024 r.0 (record s { frames = r.1 })) [
      | none ↦ none
      | some s' ↦ map_page r.0 vaddr 7 s'
    ] in
    if r.0 == 0 then some (record s { frames = r.1 }) else filled

-- The loop, for at most `fuel` rounds. `none`: the rounds are used up; `some none`: a page fault.
unfoldable pub map_user_pages : ℕ → ℕ → ℕ → Paging → Option (Option Paging)
map_user_pages zero vaddr end s = if ltb vaddr end then none else some (some s)
map_user_pages (suc fuel) vaddr end s =
    let rest : Option (Option Paging) = elim (map_user_page vaddr s) [
      | none ↦ some none
      | some s' ↦ map_user_pages fuel (u32 (vaddr + page_size)) end s'
    ] in
    if ltb vaddr end then rest else some (some s)

unfoldable pub paging_map_user_memory : ℕ → ℕ → Paging → Option (Option Paging)
paging_map_user_memory virtual_address size s =
    if size == 0
    then some (some s)
    else map_user_pages (2 ^ 20) (virtual_address / page_size * page_size)
        (u32 (virtual_address + size + page_size - 1) / page_size * page_size) s
