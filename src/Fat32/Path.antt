-- ===== src/Fat32/Path.antt =====
-- `fat32_get_path_cluster` and `fat32_cd`.
use sojebos.Common.{
  ℕ, zero, suc, ◌/◌, ◌%◌, ◌&&◌, Option, none, some, List, [], ◌∷◌, ◌==◌, if◌then◌else◌,
}
use sojebos.Disk.{Disk}
use sojebos.Fat32.{Volume, State, print}
use sojebos.Fat32.Entry.{first_cluster}
use sojebos.Fat32.Find.{
  is_end, is_deleted, is_long_name, attr_of, same_name, entry_of, found_or_none,
}
use sojebos.Fat32.Name.{format_filename}
use sojebos.Fat32.Walk.{Slot, Step, go, skip, stop, scan_chain}

abbrev pub slash : ℕ
slash = b'/'

abbrev pub invalid_cluster : ℕ
invalid_cluster = 0xffffffff

unfoldable pub skip_slashes : List ℕ → List ℕ
skip_slashes [] = []
skip_slashes (c ∷ cs) = let rest = skip_slashes cs in if c == slash then rest else c ∷ cs

-- At most `n` characters up to a slash, and what is left.
unfoldable pub take_component : ℕ → List ℕ → List ℕ × List ℕ
take_component zero path = ([], path)
take_component (suc n) [] = ([], [])
take_component (suc n) (c ∷ cs) =
    let rest = take_component n cs in if c == slash then ([], c ∷ cs) else (c ∷ rest.0, rest.1)

-- The component, and the path behind it.
unfoldable pub get_next_component : List ℕ → List ℕ × List ℕ
get_next_component path = take_component 127 (skip_slashes path)

-- The end mark leaves the loop over one sector only. A file of that name is passed over. Cluster 0
-- stands for the root.
unfoldable pub visit_component : ℕ → List ℕ → Unit {0} → Slot → Step (Unit {0}) (Option ℕ)
visit_component root search s x =
    if is_end x
    then skip s
    else if is_deleted x
    then go s
    else if is_long_name x
    then go s
    else if same_name (entry_of x).name search && (attr_of x / 16 % 2 == 1)
    then stop (some (if first_cluster (entry_of x) == 0 then root else first_cluster (entry_of x)))
    else go s

unfoldable pub find_component : Volume → Disk → ℕ → ℕ → List ℕ → Option (Option ℕ)
find_component fs d fuel dir component =
    elim (scan_chain (visit_component fs.root_cluster (format_filename component)) fs d fuel dir
      tt) [ none ↦ none | some r ↦ some (found_or_none r) ]

-- `rounds` bounds the components of the path, `fuel` the clusters of each directory.
unfoldable pub follow_path : Volume → Disk → ℕ → ℕ → ℕ → List ℕ → Option ℕ
follow_path fs d fuel zero cluster path = none
follow_path fs d fuel (suc rounds) cluster [] = some cluster
follow_path fs d fuel (suc rounds) cluster (c ∷ cs) =
    let part = get_next_component (c ∷ cs) in
    elim part.0 [
      | [] ↦ some cluster
      | x ∷ xs ↦ elim (find_component fs d fuel cluster part.0) [
        | none ↦ none
        | some none ↦ some invalid_cluster
        | some (some found) ↦ follow_path fs d fuel rounds found part.1
      ]
    ]

unfoldable pub get_path_cluster : ℕ → ℕ → List ℕ → State → Option ℕ
get_path_cluster fuel rounds [] st = some st.current_dir_cluster
get_path_cluster fuel rounds (c ∷ cs) st =
    if c == slash
    then follow_path st.fs st.disk fuel rounds st.fs.root_cluster cs
    else follow_path st.fs st.disk fuel rounds st.current_dir_cluster (c ∷ cs)

unfoldable pub fat32_cd : List ℕ → ℕ → ℕ → List ℕ → State → Option State
fat32_cd no_such fuel rounds path st = elim (get_path_cluster fuel rounds path st) [
  | none ↦ none
  | some target ↦ some (
      if target == invalid_cluster
      then print no_such st
      else record st { current_dir_cluster = target })
]
