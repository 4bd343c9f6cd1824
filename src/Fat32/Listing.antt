-- ===== src/Fat32/Listing.antt =====
-- What a directory lists, and that lookup and listing agree on it.
use sojebos.Common.{
  ℕ, ◌*◌, ◌<◌, ◌≡◌, ◌∙◌, refl, sym, ap, get_or, take, drop, ◌==◌, false, inl, inr, Bool-cases,
  Option, none, some, List, [], ◌∷◌, ◌++◌, if◌then◌else◌, length, arith,
}
use mathlib.Core.List.{append-nil, append_assoc}
use sojebos.Disk.{Disk}
use sojebos.Fat32.{Volume, State, next_cluster, print}
use sojebos.Fat32.Chain.{Chain}
use sojebos.Fat32.Entry.{DirEntry}
use sojebos.Fat32.Name.{format_filename}
use sojebos.Fat32.Shown.{readable, print_name-readable}
use sojebos.Fat32.PutBytes.{get_or-drop}
use sojebos.Fat32.Entry.{name_byte}
use sojebos.Fat32.Walk.{Slot, skip}
use sojebos.Fat32.Flat.{run, dir_slots, scan_chain-run}
use sojebos.Fat32.Find.{
  same_name, is_end, is_deleted, is_long_name, entry_of, visit_find, visit_ls, found_or_none,
  either, find_file, fat32_ls,
}

-- The entries up to the end mark that are neither deleted nor part of a long name.
unfoldable pub listed : List Slot → List DirEntry
listed [] = []
listed (x ∷ xs) =
    let rest = listed xs in
    if is_end x
    then []
    else if is_deleted x
    then rest
    else if is_long_name x
    then rest
    else entry_of x ∷ rest

unfoldable pub first_named : List ℕ → List DirEntry → Option DirEntry
first_named name [] = none
first_named name (e ∷ es) =
    let rest = first_named name es in if same_name e.name name then some e else rest

unfoldable pub shown_names : List DirEntry → List ℕ
shown_names [] = []
shown_names (e ∷ es) = (readable e.name ++ b'\n' ∷ []) ++ shown_names es

first_byte : (ys : List ℕ) → get_or (take 11 ys) 0 0 ≡ get_or ys 0 0
first_byte [] = refl
first_byte (y ∷ ys) = refl

-- The mark of an entry is the first byte of its name.
name-first : (x : Slot) → get_or (entry_of x).name 0 0 ≡ name_byte x.buffer x.index 0
unfolding entry_of
name-first x = first_byte (drop (32 * x.index) x.buffer) ∙ get_or-drop (32 * x.index) 0 x.buffer

find-never_skips : (name : List ℕ) (s s' : Unit {0}) (x : Slot) → visit_find name s x ≡ skip s' → ⊥
unfolding visit_find
find-never_skips name s s' x e = ground arith

ls-never_skips : (s s' : List ℕ) (x : Slot) → visit_ls s x ≡ skip s' → ⊥
unfolding visit_ls
ls-never_skips s s' x e = ground arith

run-find :
    (name : List ℕ) (xs : List Slot)
    → found_or_none (run (visit_find name) xs tt) ≡ first_named name (listed xs)
unfolding run visit_find listed first_named
run-find name [] = refl
run-find name (x ∷ xs) = ground (arith, run-find name xs)

run-ls :
    (text : List ℕ) (xs : List Slot)
    → either (run visit_ls xs text) ≡ text ++ shown_names (listed xs)
unfolding run visit_ls listed shown_names
run-ls text [] = sym (append-nil text)
run-ls text (x ∷ xs) = elim (Bool-cases (is_deleted x)) [
  | inl e ↦ ground (arith, append-nil text, run-ls text xs)
  | inr e ↦
      let shown = readable (entry_of x).name ++ b'\n' ∷ [] in
      let live : (get_or (entry_of x).name 0 0 == 0xe5) ≡ false = rw (name-first x) e in
      let printed = print_name-readable (entry_of x).name live in
      ground (
        arith,
        printed,
        append-nil text,
        run-ls text xs,
        run-ls (text ++ shown) xs,
        append_assoc text shown (shown_names (listed xs)),
      )
]

-- With fuel for each cluster of the current directory, a lookup gives the first listed entry whose
-- eleven bytes are the formatted name, and nothing if there is none.
pub find_file-listed :
    (fs : Volume) (d : Disk) (cs : List ℕ) (fuel dir : ℕ) (filename : List ℕ)
    → Chain (next_cluster fs d) dir cs
    → length cs < fuel
    → find_file fs d fuel dir filename
      ≡ some (first_named (format_filename filename) (listed (dir_slots fs d cs)))
unfolding find_file
find_file-listed fs d cs fuel dir filename ch le =
    let name = format_filename filename in
    rw
      (
        scan_chain-run (visit_find name) (find-never_skips name) fs d cs fuel dir tt ch le,
        find_file,
      )
      (ap some (run-find name (dir_slots fs d cs)))

-- `ls` prints the listed names of the current directory as a user reads them, one in a line, in order, and changes nothing else.
pub fat32_ls-listed :
    (cs : List ℕ) (fuel : ℕ) (st : State)
    → Chain (next_cluster st.fs st.disk) st.current_dir_cluster cs
    → length cs < fuel
    → fat32_ls fuel st ≡ some (print (shown_names (listed (dir_slots st.fs st.disk cs))) st)
unfolding fat32_ls
fat32_ls-listed cs fuel st ch le =
    let walk =
      scan_chain-run visit_ls ls-never_skips st.fs st.disk cs fuel st.current_dir_cluster [] ch
        le in
    rw (walk, fat32_ls) (ap (λ t. some (print t st)) (run-ls [] (dir_slots st.fs st.disk cs)))
