-- ===== src/Fat32/Entry.antt =====
-- `fat32_dir_entry`: 32 packed bytes, and the fields of it that fat32.c reads and writes.
use sojebos.Common.{ℕ, ◌+◌, ◌*◌, ◌/◌, ◌%◌, ◌^◌, List, [], ◌∷◌, set, get_or, take, drop}
use sojebos.Disk.Fields.{get_u16, get_u32, put_u16, put_u32}

pub record DirEntry : Type 0 where
  pub name : List ℕ
  pub attr : ℕ
  pub first_cluster_high : ℕ
  pub first_cluster_low : ℕ
  pub file_size : ℕ

-- `entries[i]` of a sector's bytes
unfoldable pub entry_at : List ℕ → ℕ → DirEntry
entry_at buffer i = record {
  name = take 11 (drop (32 * i) buffer);
  attr = get_or buffer (32 * i + 11) 0;
  first_cluster_high = get_u16 buffer (32 * i + 20);
  first_cluster_low = get_u16 buffer (32 * i + 26);
  file_size = get_u32 buffer (32 * i + 28);
}

-- `entries[i].name[j]`
abbrev pub name_byte : List ℕ → ℕ → ℕ → ℕ
name_byte buffer i j = get_or buffer (32 * i + j) 0

-- `first_cluster_high << 16 | first_cluster_low`; both halves have 16 bits
abbrev pub first_cluster : DirEntry → ℕ
first_cluster e = e.first_cluster_high * 2 ^ 16 + e.first_cluster_low

unfoldable pub put_bytes : List ℕ → ℕ → List ℕ → List ℕ
put_bytes buffer o [] = buffer
put_bytes buffer o (c ∷ cs) = put_bytes (set buffer o c) (o + 1) cs

-- The assignments with which a directory entry is filled in; the other fields keep their bytes.
unfoldable pub fill_entry : List ℕ → ℕ → List ℕ → ℕ → ℕ → ℕ → List ℕ
unfolding put_bytes
fill_entry buffer i name attr cluster size =
    let named = set (put_bytes buffer (32 * i) name) (32 * i + 11) attr in
    let low = put_u16 named (32 * i + 26) (cluster % 2 ^ 16) in
    let high = put_u16 low (32 * i + 20) (cluster / 2 ^ 16 % 2 ^ 16) in
    put_u32 high (32 * i + 28) size
