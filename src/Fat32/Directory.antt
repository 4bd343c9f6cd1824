-- ===== src/Fat32/Directory.antt =====
-- `fat32_create_directory` and `fat32_rmdir`, with `init_directory_cluster` and
-- `is_directory_empty`.
use sojebos.Common.{
  ℕ, zero, suc, ◌+◌, ◌-◌, ◌/◌, ◌%◌, Bool, true, false, ◌&&◌, ◌||◌, Option, none, some, List, [],
  ◌∷◌, ◌==◌, if◌then◌else◌, u32, replicate,
}
use sojebos.Disk.{Disk, disk_write}
use sojebos.Fat32.{
  Volume, State, print, in_chain, cluster_to_sector, set_next_cluster, find_free_cluster,
  end_of_chain,
}
use sojebos.Fat32.Delete.{remove_slot}
use sojebos.Fat32.Entry.{fill_entry, name_byte, first_cluster}
use sojebos.Fat32.Find.{
  is_end, is_deleted, is_long_name, attr_of, same_name, entry_of, found_or_none, find_file,
}
use sojebos.Fat32.Name.{space, dot, pad, format_filename}
use sojebos.Fat32.Walk.{Slot, Step, go, stop, follow, scan_cluster, scan_chain}
use sojebos.Fat32.Write.{visit_unused}

abbrev pub attr_directory : ℕ
attr_directory = 0x10

-- The cluster is filled with zeros from sector `s` on, `n` sectors of it.
unfoldable pub zero_sectors : ℕ → ℕ → ℕ → Disk → Disk
zero_sectors start zero s d = d
zero_sectors start (suc n) s d =
    zero_sectors start n (s + 1) (disk_write d (u32 (start + s)) (replicate 512 0))

-- The `.` and `..` entries, and zeros in what is left of the cluster.
unfoldable pub init_directory_cluster : Volume → ℕ → ℕ → Disk → Disk
init_directory_cluster fs current parent d =
    let start = cluster_to_sector fs current in
    let self = fill_entry (replicate 512 0) 0 (pad 11 (dot ∷ [])) attr_directory current 0 in
    let up =
      fill_entry self 1 (pad 11 (dot ∷ dot ∷ [])) attr_directory
        (if parent == fs.root_cluster then 0 else parent) 0 in
    zero_sectors start (fs.sectors_per_cluster - 1) 1 (disk_write d start up)

-- The search for an unused entry as `fat32_create_directory` has it: its loop does not move on to
-- the next cluster of the directory. `none`: out of fuel.
unfoldable pub scan_same_cluster : Volume → Disk → ℕ → ℕ → Option (Option Slot)
scan_same_cluster fs d zero cluster = none
scan_same_cluster fs d (suc fuel) cluster =
    let again = scan_same_cluster fs d fuel cluster in
    let here : Option (Option Slot) =
      follow (scan_cluster visit_unused fs d cluster tt) (λ _. again) (λ _. again) (λ r. some r) in
    if in_chain cluster then here else some none

pub record Messages : Type 0 where
  pub exists : List ℕ
  pub disk_full : List ℕ
  pub created : List ℕ
  pub is_file : List ℕ
  pub not_empty : List ℕ
  pub deleted : List ℕ

-- The part of `fat32_create_directory` behind its two checks.
unfoldable pub make_directory : Messages → ℕ → List ℕ → ℕ → State → Option State
make_directory text fuel dirname new st =
    let fs = st.fs in
    let d =
      init_directory_cluster fs new st.current_dir_cluster
        (set_next_cluster fs new end_of_chain st.disk) in
    elim (scan_same_cluster fs d fuel st.current_dir_cluster) [
      | none ↦ none
      | some none ↦ some (record st { disk = d })
      | some (some x) ↦ some (
          print text.created (record st {
            disk =
                disk_write d x.sector
                  (fill_entry x.buffer x.index (format_filename dirname) attr_directory new 0);
          }))
    ]

unfoldable pub fat32_create_directory : Messages → ℕ → List ℕ → State → Option State
fat32_create_directory text fuel dirname st =
    elim (find_file st.fs st.disk fuel st.current_dir_cluster dirname) [
      | none ↦ none
      | some (some e) ↦ some (print text.exists st)
      | some none ↦
          let new = find_free_cluster st.fs st.disk in
          let made = make_directory text fuel dirname new st in
          if new == end_of_chain then some (print text.disk_full st) else made
    ]

-- `.` or `..` by its first three bytes
unfoldable pub is_dot_entry : Slot → Bool
is_dot_entry x =
    (name_byte x.buffer x.index 0 == dot)
    && ((name_byte x.buffer x.index 1 == space)
        || ((name_byte x.buffer x.index 1 == dot) && (name_byte x.buffer x.index 2 == space)))

unfoldable pub visit_any : Unit {0} → Slot → Step (Unit {0}) (Option (Unit {0}))
visit_any s x =
    if is_end x
    then go s
    else if is_deleted x
    then go s
    else if is_long_name x
    then go s
    else if is_dot_entry x
    then go s
    else stop (some tt)

unfoldable pub is_directory_empty : Volume → Disk → ℕ → ℕ → Option Bool
is_directory_empty fs d fuel dir = elim (scan_chain visit_any fs d fuel dir tt) [
  | none ↦ none
  | some r ↦ elim (found_or_none r) [ none ↦ some true | some _ ↦ some false ]
]

unfoldable pub visit_rmdir : List ℕ → Unit {0} → Slot → Step (Unit {0}) (Option Slot)
visit_rmdir search_name s x =
    if is_end x
    then stop none
    else if is_deleted x
    then go s
    else if same_name (entry_of x).name search_name
    then stop (some x)
    else go s

-- What `fat32_rmdir` does with the entry that it finds.
unfoldable pub remove_directory : Messages → ℕ → Slot → State → Option State
remove_directory text fuel x st =
    let emptied : Option State =
      elim (is_directory_empty st.fs st.disk fuel (first_cluster (entry_of x))) [
        | none ↦ none
        | some false ↦ some (print text.not_empty st)
        | some true ↦ elim (remove_slot st.fs fuel x st.disk) [
          | none ↦ none
          | some d ↦ some (print text.deleted (record st { disk = d }))
        ]
      ] in
    if attr_of x / 16 % 2 == 0 then some (print text.is_file st) else emptied

unfoldable pub fat32_rmdir : Messages → ℕ → List ℕ → State → Option State
fat32_rmdir text fuel dirname st =
    elim (scan_chain (visit_rmdir (format_filename dirname)) st.fs st.disk fuel
      st.current_dir_cluster tt) [
        | none ↦ none
        | some r ↦ elim (found_or_none r) [
          | none ↦ some st
          | some x ↦ remove_directory text fuel x st
        ]
      ]
