-- ===== src/Fat32/Read.antt =====
-- `fat32_read_absolute`, `fat32_vfs_read` and `fat32_read_file`: the bytes of a file.
use sojebos.Common.{
  ℕ, zero, suc, ◌+◌, ◌-◌, ◌*◌, ◌/◌, ◌%◌, Bool, true, false, ◌&&◌, Option, none, some, List, [],
  ◌++◌, if◌then◌else◌, leb, ltb, u32, take, drop, min,
}
use sojebos.Disk.{Disk, disk_read}
use sojebos.Fat32.{Volume, in_chain, cluster_to_sector, next_cluster}
use sojebos.Fat32.Entry.{DirEntry, first_cluster}

-- The loop that goes to the cluster of the offset. The inner `none` is the early return.
unfoldable pub seek : Volume → Disk → ℕ → ℕ → ℕ → Option (Option (ℕ × ℕ))
seek fs d zero cluster offset = none
seek fs d (suc fuel) cluster offset =
    let next = next_cluster fs d cluster in
    let per_cluster = fs.sectors_per_cluster * 512 in
    let rest = seek fs d fuel next (offset - per_cluster) in
    if leb per_cluster offset
    then if in_chain next then rest else some none
    else some (some (cluster, offset))

-- The variables of the read loop; `out` is what stands in the buffer, `total_read` bytes.
pub record Reading : Type 0 where
  pub offset : ℕ
  pub size : ℕ
  pub out : List ℕ

-- One sector: from the offset in it, no more than is wanted.
unfoldable pub read_sector : Disk → ℕ → ℕ → Reading → Reading
read_sector d sector within r =
    let chunk = min (512 - within) r.size in
    record {
      offset = 0;
      size = r.size - chunk;
      out = r.out ++ take chunk (drop within (disk_read d sector));
    }

-- `n` sectors from sector `s`; the offset within the first is `within`.
unfoldable pub read_sectors : Disk → ℕ → ℕ → ℕ → ℕ → Reading → Reading
read_sectors d base zero s within r = r
read_sectors d base (suc n) s within r =
    let rest = read_sectors d base n (s + 1) 0 (read_sector d (u32 (base + s)) within r) in
    if ltb 0 r.size then rest else r

unfoldable pub read_cluster : Volume → Disk → ℕ → Reading → Reading
read_cluster fs d cluster r =
    let first = r.offset / 512 % 256 in
    read_sectors d (cluster_to_sector fs cluster) (fs.sectors_per_cluster - first) first
      (r.offset % 512) r

-- `none`: out of fuel
unfoldable pub read_chain : Volume → Disk → ℕ → ℕ → Reading → Option Reading
read_chain fs d zero cluster r = none
read_chain fs d (suc fuel) cluster r =
    let rest = read_chain fs d fuel (next_cluster fs d cluster) (read_cluster fs d cluster r) in
    if ltb 0 r.size && in_chain cluster then rest else some r

-- The bytes put into the buffer; their number is the result.
unfoldable pub read_absolute : Volume → Disk → ℕ → ℕ → ℕ → ℕ → Option (List ℕ)
read_absolute fs d fuel start offset size = elim (seek fs d fuel start offset) [
  | none ↦ none
  | some none ↦ some []
  | some (some (cluster, within)) ↦
      elim (read_chain fs d fuel cluster (record { offset = within; size = size; out = [] })) [
        | none ↦ none
        | some r ↦ some r.out
      ]
]

-- `fat32_vfs_read`: the sum is of 32 bits.
unfoldable pub vfs_read_size : ℕ → ℕ → ℕ → ℕ
vfs_read_size file_size offset size =
    if leb file_size offset
    then 0
    else if ltb file_size (u32 (offset + size))
    then file_size - offset
    else size

unfoldable pub fat32_vfs_read : Volume → Disk → ℕ → ℕ → ℕ → ℕ → ℕ → Option (List ℕ)
fat32_vfs_read fs d fuel inode file_size offset size =
    let wanted = read_absolute fs d fuel inode offset (vfs_read_size file_size offset size) in
    if leb file_size offset then some [] else wanted

-- `fat32_read_file`: whole sectors are copied until the size is reached.
unfoldable pub read_whole_sectors : Disk → ℕ → ℕ → ℕ → ℕ → List ℕ → (ℕ × List ℕ) × Bool
read_whole_sectors d base zero s remaining out = ((remaining, out), false)
read_whole_sectors d base (suc n) s remaining out =
    let out' = out ++ disk_read d (u32 (base + s)) in
    let rest = read_whole_sectors d base n (s + 1) (remaining - 512) out' in
    if ltb 512 remaining then rest else ((0, out'), true)

unfoldable pub read_file_chain : Volume → Disk → ℕ → ℕ → ℕ → List ℕ → Option (List ℕ)
read_file_chain fs d zero cluster remaining out = none
read_file_chain fs d (suc fuel) cluster remaining out =
    let (r, done) =
      read_whole_sectors d (cluster_to_sector fs cluster) fs.sectors_per_cluster 0 remaining out in
    let rest = read_file_chain fs d fuel (next_cluster fs d cluster) r.0 r.1 in
    if in_chain cluster then if done then some r.1 else rest else some out

unfoldable pub fat32_read_file : Volume → Disk → ℕ → DirEntry → Option (List ℕ)
fat32_read_file fs d fuel e = read_file_chain fs d fuel (first_cluster e) e.file_size []
