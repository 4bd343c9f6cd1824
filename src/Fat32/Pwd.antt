-- ===== src/Fat32/Pwd.antt =====
-- `fat32_pwd`: up along the `..` entries, and down again for the names.
use mathlib.Core.Option.{some_inj, none-ne-some}
use sojebos.Common.{
  ℕ, zero, suc, ◌+◌, ◌/◌, ◌%◌, ◌&&◌, Option, none, some, List, [], ◌∷◌, ◌++◌, ◌==◌, if◌then◌else◌,
  leb, ltb, take, length, ◌≤◌, ◌≡◌, sym, arith, Bool-cases, Option-cases, inl, inr,
}
use sojebos.Disk.{Disk, disk_read}
use sojebos.Fat32.{Volume, State, print, cluster_to_sector, next_cluster}
use sojebos.Fat32.Entry.{entry_at, first_cluster, name_byte}
use sojebos.Fat32.Find.{is_end, is_deleted, is_long_name, attr_of, entry_of}
use sojebos.Fat32.Name.{dot, without_spaces}
use sojebos.Fat32.Path.{slash}
use sojebos.Strings.{c_string}
use sojebos.Fat32.Walk.{Slot, Step, go, stop, follow, scan_cluster}

-- The entry of a directory that stands for the cluster `child`: up to eight characters of its name.
unfoldable pub visit_dirname : ℕ → ℕ → ℕ → Unit {0} → Slot → Step (Unit {0}) (Option (List ℕ))
visit_dirname root parent child s x =
    let e = entry_of x in
    let cluster = if (first_cluster e == 0) && (parent == root) then root else first_cluster e in
    if is_end x
    then stop none
    else if is_deleted x
    then go s
    else if is_long_name x
    then go s
    else if (attr_of x / 16 % 2 == 1) && (cluster == child)
    then stop (some (without_spaces (take 8 e.name)))
    else go s

-- The loop tests the cluster against 0xFFFFFFF8. The outer `none`: out of fuel.
unfoldable pub find_dirname_from : Volume → Disk → ℕ → ℕ → ℕ → ℕ → Option (Option (List ℕ))
find_dirname_from fs d zero parent child cluster = none
find_dirname_from fs d (suc fuel) parent child cluster =
    let rest = find_dirname_from fs d fuel parent child (next_cluster fs d cluster) in
    let found : Option (Option (List ℕ)) =
      follow (scan_cluster (visit_dirname fs.root_cluster parent child) fs d cluster tt) (λ s. rest)
        (λ s. rest) some in
    if leb 2 cluster && ltb cluster 0xfffffff8 then found else some none

unfoldable pub find_dirname_in_parent : Volume → Disk → ℕ → ℕ → ℕ → Option (Option (List ℕ))
find_dirname_in_parent fs d fuel parent child = find_dirname_from fs d fuel parent child parent

-- `..` in the second entry of a directory's first sector: the parent. A value of 0 is the root.
unfoldable pub parent_of : Volume → Disk → ℕ → Option ℕ
parent_of fs d cluster =
    let buffer = disk_read d (cluster_to_sector fs cluster) in
    let parent = first_cluster (entry_at buffer 1) in
    if (name_byte buffer 1 0 == dot) && (name_byte buffer 1 1 == dot)
    then some (if parent == 0 then fs.root_cluster else parent)
    else none

-- The climb, with room for `n` clusters: the clusters met, the last one first; `none` where `..` is
-- missing.
unfoldable pub climb : Volume → Disk → ℕ → ℕ → List ℕ → Option (List ℕ)
climb fs d zero walk stack = some stack
climb fs d (suc n) walk stack =
    let step : Option (List ℕ) = elim (parent_of fs d walk) [
      | none ↦ none
      | some parent ↦
          let rest = climb fs d n parent (walk ∷ stack) in
          if parent == walk then some (walk ∷ stack) else rest
    ] in
    if walk == fs.root_cluster then some stack else step

-- The names on the way down; `???` for a cluster that its parent does not list.
unfoldable pub trace_names : Volume → Disk → ℕ → ℕ → List ℕ → Option (List ℕ)
trace_names fs d fuel parent [] = some []
trace_names fs d fuel parent (child ∷ stack) =
    elim (find_dirname_in_parent fs d fuel parent child) [
      | none ↦ none
      | some found ↦ elim (trace_names fs d fuel child stack) [
        | none ↦ none
        | some rest ↦ some (
            slash
            ∷ (elim found [ none ↦ b'?' ∷ b'?' ∷ b'?' ∷ [] | some name ↦ c_string name ] ++ rest))
      ]
    ]

-- `corrupted` is the error's text.
unfoldable pub fat32_pwd : List ℕ → ℕ → State → Option State
fat32_pwd corrupted fuel st =
    let traced : Option State = elim (climb st.fs st.disk 16 st.current_dir_cluster []) [
      | none ↦ some (print corrupted st)
      | some stack ↦ elim (trace_names st.fs st.disk fuel st.fs.root_cluster stack) [
        | none ↦ none
        | some names ↦ some (print (names ++ b'\n' ∷ []) st)
      ]
    ] in
    if st.current_dir_cluster == st.fs.root_cluster
    then some (print (slash ∷ b'\n' ∷ []) st)
    else traced

length-climb_from :
    (fs : Volume) (d : Disk) (n walk : ℕ) (stack found : List ℕ)
    → climb fs d n walk stack ≡ some found
    → length found ≤ length stack + n
unfolding climb
length-climb_from fs d zero walk stack found e =
    let same = some_inj.0 e in rw (sym same) (omega arith)
length-climb_from fs d (suc n) walk stack found e = elim (Bool-cases (walk == fs.root_cluster)) [
  | inl z ↦ let same = some_inj.0 (rw z at e) in rw (sym same) (omega arith)
  | inr z ↦ elim (Option-cases (parent_of fs d walk)) [
    | inl none_there ↦ absurd (none-ne-some _ (rw (z, none_there) at e))
    | inr (parent, there) ↦ elim (Bool-cases (parent == walk)) [
      | inl loop ↦ let same = some_inj.0 (rw (z, there, loop) at e) in rw (sym same) (omega arith)
      | inr on ↦
          omega
            (arith, length-climb_from fs d n parent (walk ∷ stack) found (rw (z, there, on) at e))
    ]
  ]
]

-- The clusters met on the way up fit into the sixteen places of `cluster_stack`, on every disk: also
-- where the `..` entries run in a circle.
pub length-climb :
    (fs : Volume) (d : Disk) (walk : ℕ) (stack : List ℕ)
    → climb fs d 16 walk [] ≡ some stack
    → length stack ≤ 16
length-climb fs d walk stack e = length-climb_from fs d 16 walk [] stack e
