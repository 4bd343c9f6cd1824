-- ===== src/Fat32/Usage.antt =====
-- The count of `fat32_show_usage`.
use sojebos.Common.{ℕ, zero, suc, ◌+◌, ◌*◌, ◌%◌, ◌^◌, ◌≤◌, ◌<◌, ◌≡◌, refl, ◌&&◌, arith, leb}
use sojebos.Common.{◌==◌, if◌then◌else◌, u32, ltb}
use sojebos.Disk.{Disk, disk_read}
use sojebos.Disk.Fields.{get_u32}
use sojebos.Fat32.{Volume, next_cluster, count_free_in, count_free_from}
use sojebos.Fat32.Alloc.{entry_link}

-- How many of the `n` clusters from `lo` on are free, 0 and 1 left out.
unfoldable pub free_among : (ℕ → ℕ) → ℕ → ℕ → ℕ
free_among link zero lo = 0
free_among link (suc n) lo =
    (if leb 2 lo && (link lo == 0) then 1 else 0) + free_among link n (lo + 1)

free_among-append :
    (link : ℕ → ℕ) (n m lo : ℕ)
    → free_among link (n + m) lo ≡ free_among link n lo + free_among link m (lo + n)
unfolding free_among
free_among-append link zero m lo =
    let a : zero + m ≡ m = omega arith in
    let b : lo + 0 ≡ lo = omega arith in rw (a, b) (omega arith)
free_among-append link (suc n) m lo =
    let a : suc n + m ≡ suc (n + m) = omega arith in
    let b : lo + suc n ≡ lo + 1 + n = omega arith in
    rw (a, b) (omega (arith, free_among-append link n m (lo + 1)))

pub free_among-le : (link : ℕ → ℕ) (n lo : ℕ) → free_among link n lo ≤ n
unfolding free_among
free_among-le link zero lo = omega arith
free_among-le link (suc n) lo = ground (arith, free_among-le link n (lo + 1))

module _ (fs : Volume) (d : Disk) where
  count_free_in_lem :
      (i n j lo count : ℕ)
      → i < 2 ^ 21
      → j + n ≤ 128
      → lo ≡ i * 128 + j
      → count + n < 2 ^ 32
      → count_free_in (disk_read d (u32 (fs.reserved_sector_count + i))) i n j count
        ≡ count + free_among (next_cluster fs d) n lo
  unfolding count_free_in free_among
  count_free_in_lem i zero j lo count p q x y = omega arith
  count_free_in_lem i (suc n) j lo count p q x y =
      let buffer = disk_read d (u32 (fs.reserved_sector_count + i)) in
      let entry = get_u32 buffer (4 * j) % 2 ^ 28 in
      let here : entry ≡ next_cluster fs d lo = rw x (entry_link fs d i j (omega arith) p) in
      let count' =
        if (i == 0) && ltb j 2 then count else if entry == 0 then u32 (count + 1) else count in
      let step : count' ≡ count + (if leb 2 lo && (next_cluster fs d lo == 0) then 1 else 0) =
        rw (← here) (ground arith) in
      let bound : count' + n < 2 ^ 32 = ground arith in
      omega (
        arith,
        step,
        count_free_in_lem i n (j + 1) (lo + 1) count' p (omega arith) (omega arith) bound,
      )

  count_free_from_lem :
      (n i lo count : ℕ)
      → i + n ≤ 2 ^ 21
      → lo ≡ i * 128
      → count + n * 128 < 2 ^ 32
      → count_free_from fs d n i count ≡ count + free_among (next_cluster fs d) (n * 128) lo
  unfolding count_free_from
  count_free_from_lem zero i lo count p x y =
      let nothing : free_among (next_cluster fs d) (zero * 128) lo ≡ 0 =
        unfold free_among in refl in
      omega (arith, nothing)
  count_free_from_lem (suc n) i lo count p x y =
      let buffer = disk_read d (u32 (fs.reserved_sector_count + i)) in
      let link = next_cluster fs d in
      let here =
        count_free_in_lem i 128 0 lo count (omega arith) (omega arith) (omega arith)
          (omega arith) in
      let few = free_among-le link 128 lo in
      let later =
        count_free_from_lem n (i + 1) (lo + 128) (count_free_in buffer i 128 0 count) (omega arith)
          (omega arith) (omega arith) in
      let split : suc n * 128 ≡ 128 + n * 128 = omega arith in
      rw (split, free_among-append link 128 (n * 128) lo) (omega (arith, here, later))

-- `fat32_show_usage` counts the free clusters of a table of at most 2 ^ 21 sectors, each once.
pub count_free_from-free_among :
    (fs : Volume) (d : Disk)
    → fs.fat_size ≤ 2 ^ 21
    → count_free_from fs d fs.fat_size 0 0 ≡ free_among (next_cluster fs d) (fs.fat_size * 128) 0
count_free_from-free_among fs d h =
    omega
      (arith, count_free_from_lem fs d fs.fat_size 0 0 0 (omega arith) (omega arith) (omega arith))
