-- ===== src/Fat32.antt =====
-- src/kernel/fs/fat32.c and fat32.h: the mounted volume, and the file allocation table.
--
-- The state is the static `fs`, `current_dir_cluster`, the disk, and the text that the console has
-- been given. `uint32_t` arithmetic wraps; the masks 0x0FFFFFFF and 0xF0000000 are the remainder
-- and the quotient by 2 ^ 28. A loop along a cluster chain takes fuel, one unit for each cluster.
pub mod Table
pub mod Alloc
pub mod Usage
pub mod Chain
pub mod Clear
pub mod Name
pub mod Shown
pub mod Entry
pub mod Walk
pub mod Flat
pub mod Find
pub mod Listing
pub mod Write
pub mod Delete
pub mod Directory
pub mod Path
pub mod Read
pub mod Slice
pub mod Contents
pub mod Layout
pub mod Sectors
pub mod Linked
pub mod Saved
pub mod RoundTrip
pub mod PutBytes
pub mod Filled
pub mod Places
pub mod Replaced
pub mod Kept
pub mod Recorded
pub mod WriteFile
pub mod Printed
pub mod Cat
pub mod Report
pub mod Texts
pub mod Pwd
pub mod Tests
mod WriteTests
use sojebos.Common.{ℕ, zero, suc, ◌+◌, ◌*◌, ◌/◌, ◌%◌, ◌^◌, Bool, true, false, ◌&&◌}
use sojebos.Common.{
  Option, none, some, List, ◌++◌, ltb, leb, ◌==◌, if◌then◌else◌, u32, sub32, get_or,
}
use mathlib.Core.Option.{get_or as get_or_else}
use sojebos.Disk.{Disk, disk_read, disk_write}
use sojebos.Disk.Fields.{get_u16, get_u32, put_u32}

-- `FAT32`
pub record Volume : Type 0 where
  pub bytes_per_sector : ℕ
  pub sectors_per_cluster : ℕ
  pub reserved_sector_count : ℕ
  pub num_fats : ℕ
  pub fat_size : ℕ
  pub root_cluster : ℕ
  pub first_data_sector : ℕ

pub record State : Type 0 where
  pub fs : Volume
  pub current_dir_cluster : ℕ
  pub disk : Disk
  pub console : List ℕ

-- `console_print`, up to the terminating zero
unfoldable pub print : List ℕ → State → State
print text st = record st { console = st.console ++ text }

-- `while (cluster >= 2 && cluster < 0x0FFFFFF8)`
abbrev pub in_chain : ℕ → Bool
in_chain cluster = leb 2 cluster && ltb cluster 0x0ffffff8

abbrev pub end_of_chain : ℕ
end_of_chain = 0x0fffffff

unfoldable pub cluster_to_sector : Volume → ℕ → ℕ
cluster_to_sector fs cluster = u32 (sub32 cluster 2 * fs.sectors_per_cluster + fs.first_data_sector)

-- Where the table entry of a cluster stands.
abbrev pub fat_sector : Volume → ℕ → ℕ
fat_sector fs cluster = u32 (fs.reserved_sector_count + u32 (cluster * 4) / 512)

abbrev pub entry_offset : ℕ → ℕ
entry_offset cluster = u32 (cluster * 4) % 512

unfoldable pub next_cluster : Volume → Disk → ℕ → ℕ
next_cluster fs d cluster =
    get_u32 (disk_read d (fat_sector fs cluster)) (entry_offset cluster) % 2 ^ 28

unfoldable pub set_next_cluster : Volume → ℕ → ℕ → Disk → Disk
set_next_cluster fs cluster next_value d =
    let buffer = disk_read d (fat_sector fs cluster) in
    let current = get_u32 buffer (entry_offset cluster) in
    disk_write d (fat_sector fs cluster)
      (put_u32 buffer (entry_offset cluster) (next_value % 2 ^ 28 + current / 2 ^ 28 * 2 ^ 28))

-- `fat32_init`: the boot sector's fields. The sum and product are of 32 bits.
unfoldable pub mount : Disk → Volume
mount d =
    let boot = disk_read d 0 in
    let reserved = get_u16 boot 14 in
    let fats = get_or boot 16 0 in
    let size = get_u32 boot 36 in
    record {
      bytes_per_sector = get_u16 boot 11;
      sectors_per_cluster = get_or boot 13 0;
      reserved_sector_count = reserved;
      num_fats = fats;
      fat_size = size;
      root_cluster = get_u32 boot 44;
      first_data_sector = u32 (reserved + fats * size);
    }

unfoldable pub fat32_init : State → State
unfolding mount
fat32_init st =
    let fs = mount st.disk in record st { fs = fs; current_dir_cluster = fs.root_cluster }

-- The inner loop of `fat32_find_free_cluster`: `n` entries from entry `j` of sector `i`.
unfoldable pub find_free_in : List ℕ → ℕ → ℕ → ℕ → Option ℕ
find_free_in buffer i zero j = none
find_free_in buffer i (suc n) j =
    let rest = find_free_in buffer i n (j + 1) in
    if (i == 0) && ltb j 2
    then rest
    else if get_u32 buffer (4 * j) % 2 ^ 28 == 0
    then some (u32 (i * 128 + j))
    else rest

-- The outer loop: `n` sectors of the table from sector `i`.
unfoldable pub find_free_from : Volume → Disk → ℕ → ℕ → Option ℕ
find_free_from fs d zero i = none
find_free_from fs d (suc n) i =
    let rest = find_free_from fs d n (i + 1) in
    elim (find_free_in (disk_read d (u32 (fs.reserved_sector_count + i))) i 128 0) [
      | some c ↦ some c
      | none ↦ rest
    ]

unfoldable pub find_free_cluster : Volume → Disk → ℕ
unfolding find_free_from
find_free_cluster fs d = get_or_else (find_free_from fs d fs.fat_size 0) end_of_chain

-- The count of `fat32_show_usage`, in the same two loops; it is a `uint32_t`.
unfoldable pub count_free_in : List ℕ → ℕ → ℕ → ℕ → ℕ → ℕ
count_free_in buffer i zero j count = count
count_free_in buffer i (suc n) j count = count_free_in buffer i n (j + 1) (
    if (i == 0) && ltb j 2
    then count
    else if get_u32 buffer (4 * j) % 2 ^ 28 == 0
    then u32 (count + 1)
    else count)

unfoldable pub count_free_from : Volume → Disk → ℕ → ℕ → ℕ → ℕ
count_free_from fs d zero i count = count
count_free_from fs d (suc n) i count =
    count_free_from fs d n (i + 1)
      (count_free_in (disk_read d (u32 (fs.reserved_sector_count + i))) i 128 0 count)

-- The loop with which a file's or a directory's clusters are freed. `none`: out of fuel.
unfoldable pub clear_chain : Volume → ℕ → ℕ → Disk → Option Disk
clear_chain fs zero cluster d = none
clear_chain fs (suc fuel) cluster d =
    let rest = clear_chain fs fuel (next_cluster fs d cluster) (set_next_cluster fs cluster 0 d) in
    if in_chain cluster then rest else some d
