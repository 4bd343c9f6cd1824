-- ===== src/Fat32/WriteTests.antt =====
-- Examples: a file of three bytes on the blank disk.
use sojebos.Common.{ℕ, ◌≡◌, refl, arith, List, [], ◌∷◌, some}
use sojebos.Disk.{Disk, disk_read}
use sojebos.Disk.Fields.{get_u32}
use sojebos.Fat32.{find_free_cluster, find_free_from, find_free_in}
use sojebos.Common.{◌==◌, if◌then◌else◌, replicate, ◌++◌}
use sojebos.Disk.Fields.{get_u16}
use sojebos.Fat32.{cluster_to_sector}
use sojebos.Fat32.Entry.{entry_at}
use sojebos.Fat32.Pwd.{climb, parent_of}
use sojebos.Fat32.Layout.{IsLaidOut}
use sojebos.Fat32.RoundTrip.{Stored, write_clusters-Stored}
use sojebos.Fat32.Flat.{dir_slots, sectors_slots, slots_of_sector, sector_slots}
use sojebos.Fat32.Listing.{listed, first_named}
use sojebos.Fat32.Name.{format_filename, name_part, extension_of, extension_part, pad, to_upper}
use sojebos.Fat32.WriteFile.{Ending, IsReadBack, fat32_write_file-Written}
use sojebos.Fat32.Cat.{IsShown, fat32_cat-fat32_write_file}
use sojebos.Fat32.Texts.{not_found, newline}
use sojebos.Fat32.{State, next_cluster, in_chain, end_of_chain}
use sojebos.Common.{get_or, none, ap}
use sojebos.Fat32.Tests.{small, blank, blank-IsDisk}
use sojebos.Fat32.Write.{linked, clusters_needed, write_cluster, write_clusters, fat32_write_file}

small-IsLaidOut : IsLaidOut small
small-IsLaidOut = record {
  reserved = omega arith;
  table = omega arith;
  behind = omega arith;
  fits = omega arith;
  some_sectors = omega arith;
  small = omega arith;
}

abbrev text : List ℕ
text = b'a' ∷ b'b' ∷ b'c' ∷ []

write_clusters-Stored_example :
    Stored small text 3 blank (write_clusters small text 3 (clusters_needed small 3) 0 0 0 blank)
write_clusters-Stored_example =
    write_clusters-Stored small text 3 blank small-IsLaidOut blank-IsDisk (omega arith) refl
      (omega arith) (omega arith)

abbrev text_on_disk : Disk
text_on_disk = write_cluster small text 3 0 0 4 blank

text_written :
    write_clusters small text 3 (clusters_needed small 3) 0 0 0 blank ≡ linked 4 text_on_disk
unfolding write_clusters find_free_cluster find_free_from find_free_in disk_read get_u32
text_written = refl

-- A directory in cluster 3 whose `..` names the root by 0
abbrev sub_disk : Disk
sub_disk = λ s. if s == 3 then replicate 32 0 ++ (b'.' ∷ b'.' ∷ replicate 478 0) else blank s

climbed : climb small sub_disk 16 3 [] ≡ some (3 ∷ [])
unfolding climb parent_of disk_read cluster_to_sector entry_at get_u16 get_u32
climbed = refl

abbrev note : State
note = record { fs = small; current_dir_cluster = 2; disk = blank; console = [] }

-- "abc", the name of the new file
root_lists_nothing :
    first_named (format_filename text) (listed (dir_slots small blank (2 ∷ []))) ≡ none
unfolding listed first_named dir_slots sectors_slots slots_of_sector sector_slots disk_read
    cluster_to_sector
root_lists_nothing = refl

text_formatted : get_or (format_filename text) 0 0 ≡ b'A'
unfolding format_filename name_part extension_of extension_part pad to_upper
text_formatted = refl

root_used : next_cluster small blank 2 ≡ end_of_chain
unfolding next_cluster disk_read get_u32
root_used = refl

fat32_write_file-Written_example :
    (after : Disk) × (fat32_write_file 2 text text 3 note ≡ some (record note { disk = after }))
    × Ending note (2 ∷ []) (IsReadBack small 2 2 text text 2 1 5) after
fat32_write_file-Written_example =
    fat32_write_file-Written note (2 ∷ []) 2 text text 3 2 1 5 small-IsLaidOut blank-IsDisk
      (omega arith) (((omega arith, omega arith), λ z. omega (arith, root_used, z)), tt)
      (refl, refl, ap in_chain root_used) (omega arith) refl (omega arith) (omega arith)
      (λ z. omega (arith, text_formatted, z)) (λ z. omega (arith, text_formatted, z))
      root_lists_nothing (omega arith) (omega arith)

fat32_cat-fat32_write_file_example :
    (after : Disk) × (fat32_write_file 2 text text 3 note ≡ some (record note { disk = after }))
    × Ending note (2 ∷ []) (IsShown not_found newline 2 text text note) after
fat32_cat-fat32_write_file_example =
    fat32_cat-fat32_write_file not_found newline note (2 ∷ []) 2 text text 3 small-IsLaidOut
      blank-IsDisk (omega arith)
      (((omega arith, omega arith), λ z. omega (arith, root_used, z)), tt)
      (refl, refl, ap in_chain root_used) (omega arith) refl (omega arith) (omega arith)
      (λ z. omega (arith, text_formatted, z)) (λ z. omega (arith, text_formatted, z))
      root_lists_nothing (omega arith) (ground arith)
