-- ===== src/Fat32/Cat.antt =====
-- `fat32_cat`: what it prints of a text, and of a file that `fat32_write_file` has written.
use mathlib.Core.Path.{subst}
use sojebos.Common.{
  ℕ, ◌+◌, ◌^◌, ◌≤◌, ◌<◌, ◌≡◌, ◌≢◌, sym, ap, ◌∙◌, arith, some, none, List, [], length, take, get_or,
  All,
}
use sojebos.Disk.{Disk}
use sojebos.Fat32.{State, print, next_cluster}
use sojebos.Fat32.Chain.{Chain}
use sojebos.Fat32.Entry.{first_cluster}
use sojebos.Fat32.Flat.{dir_slots}
use sojebos.Fat32.Layout.{IsLaidOut, IsCluster}
use sojebos.Fat32.Listing.{listed, first_named}
use sojebos.Fat32.Name.{format_filename}
use sojebos.Fat32.Printed.{IsText, cat_chain-printed}
use sojebos.Fat32.Recorded.{IsFile}
use sojebos.Fat32.WriteFile.{Ending, Ending-map, fat32_write_file-File}
use sojebos.Fat32.Write.{clusters_needed, fat32_write_file}
use sojebos.Fat32.Report.{fat32_cat}
use sojebos.Fat32.Slice.{per_cluster, chain_bytes}
use sojebos.Fat32.Table.{IsDisk}

-- What `fat32_cat` prints of a file that is a text
abbrev pub IsShown : List ℕ → List ℕ → ℕ → List ℕ → List ℕ → State → Disk → Type 0
IsShown not_found newline fuel filename bytes st d =
    fat32_cat not_found newline fuel filename (record st { disk = d })
    ≡ some (print newline (print bytes (record st { disk = d })))

IsFile-IsShown :
    (not_found newline filename bytes : List ℕ) (fuel size : ℕ) (st : State) (d : Disk)
    → clusters_needed st.fs size < fuel
    → IsText bytes
    → IsFile st.fs d fuel st.current_dir_cluster filename bytes size
    → IsShown not_found newline fuel filename bytes st d
unfolding fat32_cat
IsFile-IsShown not_found newline filename bytes fuel size st d enough letters
      (whole, (e, found, exact, (cs, len, chain, text))) =
    let whole_text : take e.file_size (chain_bytes st.fs d cs) ≡ bytes =
      ap (λ n. take n (chain_bytes st.fs d cs)) exact ∙ text in
    let (q, runs, shown) =
      cat_chain-printed d whole st.fs cs fuel (first_cluster e)
        (record { remaining = e.file_size; shown = [] }) chain (omega (arith, len))
        (subst IsText (sym whole_text) letters) in
    rw (found, runs, fat32_cat)
      (ap (λ t. some (print newline (print t (record st { disk = d })))) (shown ∙ whole_text))

-- Where `fat32_write_file` ends with the file on the disk, `fat32_cat` prints its bytes and a newline. The
-- call returns; else no cluster is free, or the directory has no entry left. This holds for a text,
-- without a zero in it, that is not empty and with its last cluster stays within 2 ^ 32 bytes; the
-- volume, the directory, the name and the fuel are as for `fat32_write_file-Written`, with fuel for
-- the file's clusters in `fat32_cat` too.
pub fat32_cat-fat32_write_file :
    (not_found newline : List ℕ) (st : State) (cs : List ℕ) (fuel : ℕ) (filename bytes : List ℕ)
    (size : ℕ)
    → IsLaidOut st.fs
    → IsDisk st.disk
    → 1 ≤ st.fs.fat_size
    → All (λ c. IsCluster st.fs c × (next_cluster st.fs st.disk c ≢ 0)) cs
    → Chain (next_cluster st.fs st.disk) st.current_dir_cluster cs
    → length cs < fuel
    → length bytes ≡ size
    → 1 ≤ size
    → size + per_cluster st.fs ≤ 2 ^ 32
    → get_or (format_filename filename) 0 0 ≢ 0
    → get_or (format_filename filename) 0 0 ≢ 0xe5
    → first_named (format_filename filename) (listed (dir_slots st.fs st.disk cs)) ≡ none
    → clusters_needed st.fs size < fuel
    → All (λ c. c ≢ 0) bytes
    → (after : Disk) × (fat32_write_file fuel filename bytes size st
        ≡ some (record st { disk = after }))
      × Ending st cs (IsShown not_found newline fuel filename bytes st) after
fat32_cat-fat32_write_file not_found newline st cs fuel filename bytes size laid whole table used ch
      le all ge room not_end not_deleted new enough letters =
    let (after, run, ends) =
      fat32_write_file-File st cs fuel filename bytes size laid whole table used ch le all ge room
        not_end not_deleted new in
    (
      after,
      run,
      Ending-map st cs (λ d. IsFile st.fs d fuel st.current_dir_cluster filename bytes size)
          (IsShown not_found newline fuel filename bytes st) after
          (IsFile-IsShown not_found newline filename bytes fuel size st after enough letters) ends,
    )
