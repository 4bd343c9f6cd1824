-- ===== src/Fat32/Delete.antt =====
-- `fat32_delete_file`: the chain is freed and the entry marked.
use sojebos.Common.{ℕ, ◌*◌, not, ◌&&◌, Option, none, some, List, if◌then◌else◌, set}
use sojebos.Disk.{Disk, disk_write}
use sojebos.Fat32.{Volume, State, clear_chain}
use sojebos.Fat32.Entry.{first_cluster}
use sojebos.Fat32.Find.{is_end, is_deleted, is_long_name, same_name, entry_of, found_or_none}
use sojebos.Fat32.Name.{format_filename}
use sojebos.Fat32.Walk.{Slot, Step, go, stop, scan_chain}

unfoldable pub visit_delete : List ℕ → Unit {0} → Slot → Step (Unit {0}) (Option Slot)
visit_delete search_name s x =
    if is_end x
    then stop none
    else if is_deleted x
    then go s
    else if same_name (entry_of x).name search_name && not (is_long_name x)
    then stop (some x)
    else go s

-- `entries[i].name[0] = 0xE5`, written back to its sector.
unfoldable pub mark_deleted : Slot → Disk → Disk
mark_deleted x d = disk_write d x.sector (set x.buffer (32 * x.index) 0xe5)

unfoldable pub remove_slot : Volume → ℕ → Slot → Disk → Option Disk
remove_slot fs fuel x d = elim (clear_chain fs fuel (first_cluster (entry_of x)) d) [
  | none ↦ none
  | some cleared ↦ some (mark_deleted x cleared)
]

-- `none`: out of fuel, in the walk or along the file's chain.
unfoldable pub fat32_delete_file : ℕ → List ℕ → State → Option State
fat32_delete_file fuel filename st =
    elim (scan_chain (visit_delete (format_filename filename)) st.fs st.disk fuel
      st.current_dir_cluster tt) [
        | none ↦ none
        | some r ↦ elim (found_or_none r) [
          | none ↦ some st
          | some x ↦ elim (remove_slot st.fs fuel x st.disk) [
            | none ↦ none
            | some d ↦ some (record st { disk = d })
          ]
        ]
      ]
