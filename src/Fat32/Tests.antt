-- ===== src/Fat32/Tests.antt =====
-- Runs on a small volume, and the theorems at a concrete input.
use sojebos.Common.{
  ℕ, ◌+◌, ◌/◌, ◌%◌, ◌^◌, ◌≤◌, ◌<◌, ◌≡◌, ◌≢◌, ◌⊎◌, refl, false, some, List, [], ◌∷◌, arith, All,
  replicate, length, inl, inr, Bool-cases, ap, ◌==◌, if◌then◌else◌,
}
use sojebos.Disk.{Disk, selected, ata_select, disk_read}
use sojebos.Disk.Fields.{get_u32}
use sojebos.Fat32.{
  Volume, State, print, in_chain, find_free_from, find_free_in, count_free_in, next_cluster,
  set_next_cluster, find_free_cluster, end_of_chain, count_free_from, clear_chain,
}
use sojebos.Fat32.Alloc.{find_free_cluster_lem}
use sojebos.Fat32.Chain.{NotIn}
use sojebos.Fat32.Clear.{links_below, clear_chain-total, clear_chain-frees}
use sojebos.Fat32.Find.{find_file, fat32_ls}
use sojebos.Fat32.Flat.{dir_slots}
use sojebos.Fat32.Listing.{listed, first_named, shown_names, find_file-listed, fat32_ls-listed}
use sojebos.Fat32.Name.{to_upper, name_part, extension_part, extension_of, pad, format_filename}
use sojebos.Fat32.Read.{vfs_read_size, fat32_vfs_read}
use sojebos.Fat32.Slice.{chain_bytes}
use sojebos.Fat32.Contents.{fat32_vfs_read-slice}
use sojebos.Common.{take, drop}
use sojebos.Fat32.Table.{IsDisk, raw_entry, next-set_next_cluster}

-- One table of one sector at sector 1, clusters of one sector from sector 2 on.
abbrev pub small : Volume
small = record {
  bytes_per_sector = 512;
  sectors_per_cluster = 1;
  reserved_sector_count = 1;
  num_fats = 1;
  fat_size = 1;
  root_cluster = 2;
  first_data_sector = 2;
}

-- The table has 0x0FFFFFFF for clusters 0 to 3; all else is zero.
abbrev table_sector : List ℕ
table_sector =
    0xff
    ∷ 0xff
    ∷ 0xff
    ∷ 0x0f
    ∷ 0xff
    ∷ 0xff
    ∷ 0xff
    ∷ 0x0f
    ∷ 0xff
    ∷ 0xff
    ∷ 0xff
    ∷ 0x0f
    ∷ 0xff
    ∷ 0xff
    ∷ 0xff
    ∷ 0x0f
    ∷ replicate 496 0

abbrev pub blank : Disk
blank = λ s. if s == 1 then table_sector else replicate 512 0

length-blank : (n : ℕ) → length (blank n) ≡ 512
length-blank n = elim (Bool-cases (n == 1)) [ inl e ↦ rw e refl | inr e ↦ rw e refl ]

pub blank-IsDisk : IsDisk blank
unfolding disk_read
blank-IsDisk s = length-blank (selected (ata_select s))

root_link : next_cluster small blank 2 ≡ end_of_chain
unfolding next_cluster disk_read get_u32
root_link = refl

free_cluster : find_free_cluster small blank ≡ 4
unfolding find_free_cluster find_free_from find_free_in disk_read get_u32
free_cluster = refl

free_count : count_free_from small blank 1 0 0 ≡ 124
unfolding count_free_from count_free_in disk_read get_u32
free_count = refl

-- "readme.md"
abbrev readme : List ℕ
readme = 114 ∷ 101 ∷ 97 ∷ 100 ∷ 109 ∷ 101 ∷ 46 ∷ 109 ∷ 100 ∷ []

readme_formatted :
    format_filename readme ≡ 82 ∷ 69 ∷ 65 ∷ 68 ∷ 77 ∷ 69 ∷ 32 ∷ 32 ∷ 77 ∷ 68 ∷ 32 ∷ []
unfolding format_filename name_part extension_of extension_part pad to_upper
readme_formatted = refl

-- A name of nine characters loses its extension.
long_name :
    format_filename (97 ∷ 98 ∷ 99 ∷ 100 ∷ 101 ∷ 102 ∷ 103 ∷ 104 ∷ 105 ∷ 46 ∷ 99 ∷ [])
    ≡ 65 ∷ 66 ∷ 67 ∷ 68 ∷ 69 ∷ 70 ∷ 71 ∷ 72 ∷ 32 ∷ 32 ∷ 32 ∷ []
unfolding format_filename name_part extension_of extension_part pad to_upper
long_name = refl

next-set_next_cluster_example :
    (next_cluster small (set_next_cluster small 2 5 blank) 2 ≡ 5)
    × (raw_entry small (set_next_cluster small 2 5 blank) 2 / 2 ^ 28
        ≡ raw_entry small blank 2 / 2 ^ 28 % 16)
    × ((k : ℕ)
        → k < 2 ^ 28
        → k ≢ 2
        → next_cluster small (set_next_cluster small 2 5 blank) k ≡ next_cluster small blank k)
next-set_next_cluster_example =
    next-set_next_cluster small blank blank-IsDisk (omega arith) 2 5 (omega arith)

find_free_cluster_lem_example :
    let c = find_free_cluster small blank in
    ((2 ≤ c)
      × (c < 128)
      × (next_cluster small blank c ≡ 0)
      × ((k : ℕ) → 2 ≤ k → k < c → next_cluster small blank k ≢ 0))
    ⊎ ((c ≡ end_of_chain) × ((k : ℕ) → 2 ≤ k → k < 128 → next_cluster small blank k ≢ 0))
find_free_cluster_lem_example = find_free_cluster_lem small blank (omega arith)

clear_chain-total_example :
    (d : Disk) × (clear_chain small (links_below (next_cluster small blank) (2 ^ 28) + 2) 2 blank
      ≡ some d)
clear_chain-total_example =
    clear_chain-total small (omega arith) (links_below (next_cluster small blank) (2 ^ 28) + 2) 2
      blank blank-IsDisk (omega arith)

root_ends : in_chain (next_cluster small blank 2) ≡ false
root_ends = ap in_chain root_link

clear_chain-frees_example :
    (d : Disk) × (clear_chain small 2 2 blank ≡ some d)
    × IsDisk d
    × All (λ k. next_cluster small d k ≡ 0) (2 ∷ [])
    × ((k : ℕ)
        → k < 2 ^ 28
        → NotIn k (2 ∷ [])
        → next_cluster small d k ≡ next_cluster small blank k)
clear_chain-frees_example =
    clear_chain-frees small (omega arith) (2 ∷ []) 2 2 blank blank-IsDisk (refl, refl, root_ends)
      (tt, tt) (omega arith)

find_file-listed_example :
    find_file small blank 2 2 readme
    ≡ some (first_named (format_filename readme) (listed (dir_slots small blank (2 ∷ []))))
find_file-listed_example =
    find_file-listed small blank (2 ∷ []) 2 2 readme (refl, refl, root_ends) (omega arith)

abbrev at_root : State
at_root = record { fs = small; current_dir_cluster = 2; disk = blank; console = [] }

fat32_ls-listed_example :
    fat32_ls 2 at_root
    ≡ some (print (shown_names (listed (dir_slots small blank (2 ∷ [])))) at_root)
fat32_ls-listed_example = fat32_ls-listed (2 ∷ []) 2 at_root (refl, refl, root_ends) (omega arith)

fat32_vfs_read-slice_example :
    fat32_vfs_read small blank 2 2 100 40 80
    ≡ some (take 80 (drop 40 (take 100 (chain_bytes small blank (2 ∷ [])))))
fat32_vfs_read-slice_example =
    fat32_vfs_read-slice small blank blank-IsDisk (omega arith) (omega arith) (2 ∷ []) 2 2 100 40 80
      (omega arith) (refl, refl, root_ends) (omega arith) (omega arith)

-- With a sum that wraps around, bytes behind the end of the file are read.
wrapped_size : vfs_read_size 100 40 4294967295 ≡ 4294967295
unfolding vfs_read_size
wrapped_size = refl
