-- ===== src/Fat32/Find.antt =====
-- `fat32_find_file` and `fat32_ls`: the search for a name, and the listing.
use sojebos.Common.{
  ℕ, Bool, true, false, ◌&&◌, Option, none, some, List, [], ◌∷◌, ◌++◌, ◌==◌, if◌then◌else◌,
}
use sojebos.Disk.{Disk}
use sojebos.Fat32.{Volume, State, print}
use sojebos.Fat32.Entry.{DirEntry, entry_at, name_byte}
use sojebos.Fat32.Name.{format_filename, print_name}
use sojebos.Fat32.Walk.{Slot, Step, go, skip, stop, scan_chain}

-- `memcmp(a, b, n) == 0` for names of equal length
unfoldable pub same_name : List ℕ → List ℕ → Bool
same_name [] b = true
same_name (x ∷ a) [] = false
same_name (x ∷ a) (y ∷ b) = x == y && same_name a b

-- The marks in an entry's first byte, and the attribute of a long name.
abbrev pub is_end : Slot → Bool
is_end x = name_byte x.buffer x.index 0 == 0

abbrev pub is_deleted : Slot → Bool
is_deleted x = name_byte x.buffer x.index 0 == 0xe5

abbrev pub attr_of : Slot → ℕ
attr_of x = (entry_at x.buffer x.index).attr

unfoldable pub is_long_name : Slot → Bool
unfolding entry_at
is_long_name x = attr_of x == 0x0f

unfoldable pub entry_of : Slot → DirEntry
unfolding entry_at
entry_of x = entry_at x.buffer x.index

unfoldable pub visit_find : List ℕ → Unit {0} → Slot → Step (Unit {0}) (Option DirEntry)
visit_find search_name s x =
    if is_end x
    then stop none
    else if is_deleted x
    then go s
    else if is_long_name x
    then go s
    else if same_name (entry_of x).name search_name
    then stop (some (entry_of x))
    else go s

-- The end of the loops is the function's last `return 0`.
abbrev pub found_or_none : {A : Type 0} → Step (Unit {0}) (Option A) → Option A
found_or_none (go s) = none
found_or_none (skip s) = none
found_or_none (stop r) = r

-- `none`: out of fuel.
unfoldable pub find_file : Volume → Disk → ℕ → ℕ → List ℕ → Option (Option DirEntry)
find_file fs d fuel dir filename =
    elim (scan_chain (visit_find (format_filename filename)) fs d fuel dir tt) [
      | none ↦ none
      | some r ↦ some (found_or_none r)
    ]

-- The loops of `fat32_ls` carry the text printed so far.
unfoldable pub visit_ls : List ℕ → Slot → Step (List ℕ) (List ℕ)
visit_ls text x =
    if is_end x
    then stop text
    else if is_deleted x
    then go text
    else if is_long_name x
    then go text
    else go (text ++ print_name (entry_of x).name)

abbrev pub either : {A : Type 0} → Step A A → A
either (go s) = s
either (skip s) = s
either (stop s) = s

unfoldable pub fat32_ls : ℕ → State → Option State
fat32_ls fuel st = elim (scan_chain visit_ls st.fs st.disk fuel st.current_dir_cluster []) [
  | none ↦ none
  | some r ↦ some (print (either r) st)
]
