-- ===== src/Fat32/Report.antt =====
-- `fat32_cat`, `load_and_run_file` and `fat32_show_usage`: what they print.
use sojebos.Common.{
  ℕ, zero, suc, ◌+◌, ◌-◌, ◌*◌, ◌/◌, ◌&&◌, Option, none, some, List, [], ◌++◌, if◌then◌else◌, ltb,
  u32, take,
}
use sojebos.Disk.{Disk, disk_read}
use sojebos.Fat32.{Volume, State, print, in_chain, cluster_to_sector, next_cluster, count_free_from}
use sojebos.Fat32.Entry.{first_cluster}
use sojebos.Fat32.Find.{find_file}
use sojebos.Fat32.Read.{fat32_read_file}
use sojebos.Strings.{c_string, itoa}

-- `bytes_remaining`, and the text printed so far
pub record Printing : Type 0 where
  pub remaining : ℕ
  pub shown : List ℕ

-- At most 512 bytes of a sector, up to the first zero
unfoldable pub cat_sector : List ℕ → Printing → Printing
cat_sector sector p =
    let to_print = if ltb 512 p.remaining then 512 else p.remaining in
    record {
      remaining = p.remaining - to_print;
      shown = p.shown ++ c_string (take to_print sector);
    }

unfoldable pub cat_sectors : Disk → ℕ → ℕ → ℕ → Printing → Printing
cat_sectors d base zero i p = p
cat_sectors d base (suc n) i p =
    let rest = cat_sectors d base n (i + 1) (cat_sector (disk_read d (u32 (base + i))) p) in
    if ltb 0 p.remaining then rest else p

-- `none`: out of fuel
unfoldable pub cat_chain : Volume → Disk → ℕ → ℕ → Printing → Option Printing
cat_chain fs d zero cluster p = none
cat_chain fs d (suc fuel) cluster p =
    let after = cat_sectors d (cluster_to_sector fs cluster) fs.sectors_per_cluster 0 p in
    let rest = cat_chain fs d fuel (next_cluster fs d cluster) after in
    if in_chain cluster && ltb 0 p.remaining then rest else some p

module _ (not_found newline : List ℕ) where
  unfoldable pub fat32_cat : ℕ → List ℕ → State → Option State
  fat32_cat fuel filename st = elim (find_file st.fs st.disk fuel st.current_dir_cluster filename) [
    | none ↦ none
    | some none ↦ some (print not_found st)
    | some (some e) ↦
        elim (cat_chain st.fs st.disk fuel (first_cluster e)
          (record { remaining = e.file_size; shown = [] })) [
            | none ↦ none
            | some p ↦ some (print newline (print p.shown st))
          ]
  ]

-- The bytes that go to address 0x100000, and what is printed; the texts are arguments.
module _ (found complete not_found : List ℕ) where
  unfoldable pub load_and_run_file : ℕ → List ℕ → State → Option (List ℕ × State)
  load_and_run_file fuel name st = elim (find_file st.fs st.disk fuel st.current_dir_cluster name) [
    | none ↦ none
    | some none ↦ some ([], print not_found st)
    | some (some e) ↦ elim (fat32_read_file st.fs st.disk fuel e) [
      | none ↦ none
      | some bytes ↦ some (bytes, print complete (print found st))
    ]
  ]

unfoldable pub free_kb : Volume → ℕ → ℕ
free_kb fs free_clusters = u32 (free_clusters * fs.sectors_per_cluster) / 2

-- The texts between the numbers are arguments.
module _ (scanning clusters space unit : List ℕ) where
  unfoldable pub fat32_show_usage : State → State
  fat32_show_usage st =
      let free_clusters = count_free_from st.fs st.disk st.fs.fat_size 0 0 in
      print unit (
        print (itoa (free_kb st.fs free_clusters))
          (print space (print (itoa free_clusters) (print clusters (print scanning st)))))
