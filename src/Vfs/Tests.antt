-- ===== src/Vfs/Tests.antt =====
-- Examples: a disk with the file `A`, of three bytes, in its root directory.
use sojebos.Common.{ℕ, ◌≡◌, refl, ◌==◌, if◌then◌else◌, List, [], ◌∷◌, ◌++◌, replicate, Option, some}
use sojebos.Disk.{Disk, disk_read}
use sojebos.Disk.Fields.{get_u16, get_u32}
use sojebos.Fat32.{cluster_to_sector}
use sojebos.Fat32.Walk.{scan_chain, scan_cluster, scan_sectors, scan_sector, scan_entries}
use sojebos.Fat32.Name.{format_filename, pad, name_part, to_upper, extension_of}
use sojebos.Fat32.Entry.{entry_at}
use sojebos.Fat32.Find.{find_file, visit_find, same_name, entry_of, is_long_name}
use sojebos.Fat32.Tests.{small, blank}
use sojebos.Heap.Tests.{fresh, fresh-IsValid}
use sojebos.Vfs.{Machine, Node, node_of, fat32_file_lookup, vfs_open}
use sojebos.Vfs.Nodes.{Opened, vfs_open-Opened}

abbrev root_sector : List ℕ
root_sector =
    b'A' ∷ (replicate 10 b' ' ++ (0x20 ∷ (replicate 14 0 ++ (3 ∷ 0 ∷ 3 ∷ replicate 483 0))))

abbrev disk_with_file : Disk
disk_with_file = λ s. if s == 2 then root_sector else blank s

abbrev pub with_file : Machine
with_file = record {
  blocks = fresh;
  files = record { fs = small; current_dir_cluster = 2; disk = disk_with_file; console = [] };
}

abbrev pub the_name : List ℕ
the_name = b'a' ∷ []

abbrev pub the_node : Node
the_node = node_of the_name (entry_at root_sector 0)

pub file_found : fat32_file_lookup 2 the_name with_file.files ≡ some (some the_node)
unfolding fat32_file_lookup find_file scan_chain scan_cluster scan_sectors scan_sector scan_entries
    visit_find disk_read cluster_to_sector is_long_name same_name entry_of format_filename pad
    name_part to_upper extension_of entry_at get_u16 get_u32
file_found = refl

vfs_open-Opened_example :
    (r : Option (ℕ × Node)) × (after : Machine) × (vfs_open 2 the_name with_file ≡ some (r, after))
    × Opened 2 the_name with_file r after
vfs_open-Opened_example =
    vfs_open-Opened 0x1000 0x1400 2 the_name with_file (some the_node) fresh-IsValid file_found
