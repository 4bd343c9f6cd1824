-- ===== src/Fat32/Sectors.antt =====
-- The loop of `fat32_write_file` over the sectors of one cluster: what it writes, and what it leaves.
use mathlib.Core.List.{append-nil}
use sojebos.Common.{
  ℕ, zero, suc, ◌+◌, ◌-◌, ◌*◌, ◌^◌, ◌≤◌, ◌<◌, ◌≡◌, ◌≢◌, refl, sym, ap, ◌∙◌, ◌⊎◌, inl, inr, arith,
  List, ◌++◌, u32, true, ltb, ltb→lt, leb, Bool-cases, length, length-append, length-take,
  length-drop, length-replicate, take, drop, replicate, take-take, take-nil, take-all, drop-all,
  take-append, min, if◌then◌else◌,
}
use sojebos.Disk.{Disk, disk_read, disk_write}
use sojebos.Fat32.Layout.{disk_read-write_ne, disk_read-write_self}
use sojebos.Fat32.Slice.{sectors_bytes, take_parts}
use sojebos.Fat32.Table.{IsDisk, disk_write-IsDisk}
use sojebos.Fat32.Write.{sector_data, write_sectors}

module _ (bytes : List ℕ) (size : ℕ) (all : length bytes ≡ size) where
  pub length-sector_data : (offset : ℕ) → length (sector_data bytes size offset) ≡ 512
  unfolding sector_data
  length-sector_data offset = elim (Bool-cases (leb 512 (size - offset))) [
    | inl e ↦ rw e (length-take 512 (drop offset bytes) ∙ ground (arith, length-drop offset bytes))
    | inr e ↦ rw e (
        length-append (take (size - offset) (drop offset bytes))
          (replicate (512 - (size - offset)) 0)
        ∙ ground (
          arith,
          length-take (size - offset) (drop offset bytes),
          length-drop offset bytes,
          length-replicate {A = ℕ} (512 - (size - offset)) 0,
        ))
  ]

  take-sector_data : (o : ℕ) → take (size - o) (sector_data bytes size o) ≡ take 512 (drop o bytes)
  unfolding sector_data
  take-sector_data o =
      let rest = drop o bytes in
      let len = length-drop o bytes in
      elim (Bool-cases (leb 512 (size - o))) [
        | inl e ↦
            let whole_sector : min (size - o) 512 ≡ 512 = ground arith in
            rw e (take-take (size - o) 512 rest ∙ ap (λ k. take k rest) whole_sector)
        | inr e ↦
            let short : length rest ≤ 512 = ground (arith, len) in
            let exact : take (size - o) rest ≡ rest =
              take-all (size - o) rest (omega (arith, len, all)) in
            let nothing : size - o - length rest ≡ 0 = omega (arith, len, all) in
            rw (e, exact, take-all 512 rest short)
              (take-append (size - o) rest (replicate (512 - (size - o)) 0)
                ∙ rw (exact, nothing) (append-nil rest))
      ]

  -- One sector of the file, and what follows it
  sector_data-append :
      (o n : ℕ) (next : List ℕ)
      → take (size - (o + 512)) next ≡ take (n * 512) (drop (o + 512) bytes)
      → take (size - o) (sector_data bytes size o ++ next) ≡ take (suc n * 512) (drop o bytes)
  sector_data-append o n next same =
      let more : 512 + n * 512 ≡ suc n * 512 = omega arith in
      take_parts bytes (sector_data bytes size o) next size o 512 (n * 512) (length-sector_data o)
        (take-sector_data o) same
      ∙ ap (λ k. take k (drop o bytes)) more

  module _ (first start : ℕ) where
    abbrev offset_of : ℕ → ℕ
    offset_of s = u32 (first + s * 512)

    -- One round changes its own sector at most.
    write_sector-other :
        (s q : ℕ) (d : Disk)
        → start + s < 2 ^ 28
        → q < 2 ^ 28
        → q ≢ start + s
        → disk_read
            (if ltb (offset_of s) size
              then disk_write d (u32 (start + s)) (sector_data bytes size (offset_of s))
              else d)
            q
          ≡ disk_read d q
    write_sector-other s q d inside small ne = elim (Bool-cases (ltb (offset_of s) size)) [
      | inl e ↦ rw e (disk_read-write_ne d (u32 (start + s)) q _ (omega arith) small (omega arith))
      | inr e ↦ rw e refl
    ]

    -- Sectors outside of the cluster are left alone.
    pub write_sectors-outside :
        (n s q : ℕ) (d : Disk)
        → start + s + n ≤ 2 ^ 28
        → q < 2 ^ 28
        → (q < start + s) ⊎ (start + s + n ≤ q)
        → disk_read (write_sectors bytes size first start n s d) q ≡ disk_read d q
    unfolding write_sectors
    write_sectors-outside zero s q d inside small out = refl
    write_sectors-outside (suc n) s q d inside small out =
        write_sectors-outside n (s + 1) q _ (omega arith) small (omega arith)
        ∙ write_sector-other s q d (omega arith) small (omega arith)

    pub write_sectors-IsDisk :
        (n s : ℕ) (d : Disk) → IsDisk d → IsDisk (write_sectors bytes size first start n s d)
    unfolding write_sectors
    write_sectors-IsDisk zero s d whole = whole
    write_sectors-IsDisk (suc n) s d whole = elim (Bool-cases (ltb (offset_of s) size)) [
      | inl e ↦ rw e (
          write_sectors-IsDisk n (s + 1) _
            (disk_write-IsDisk d (u32 (start + s)) _ whole (length-sector_data (offset_of s))))
      | inr e ↦ rw e (write_sectors-IsDisk n (s + 1) d whole)
    ]

    -- Each sector that begins inside the file has its part of the file.
    pub write_sectors-sector_data :
        (n s j : ℕ) (d : Disk)
        → start + s + n ≤ 2 ^ 28
        → s ≤ j
        → j < s + n
        → offset_of j < size
        → disk_read (write_sectors bytes size first start n s d) (start + j)
          ≡ sector_data bytes size (offset_of j)
    unfolding write_sectors
    write_sectors-sector_data zero s j d inside from to within = absurd (omega arith)
    write_sectors-sector_data (suc n) s j d inside from to within = elim (Bool-cases (ltb s j)) [
      | inl e ↦
          write_sectors-sector_data n (s + 1) j _ (omega arith) (ground arith) (omega arith) within
      | inr e ↦
          let here : j ≡ s = ground arith in
          let in_file : ltb (offset_of s) size ≡ true = ground arith in
          let address : u32 (start + s) ≡ start + s = omega arith in
          rw (here, in_file, address)
            (write_sectors-outside n (s + 1) (start + s) _ (omega arith) (omega arith)
                (inl (omega arith))
              ∙ disk_read-write_self d (start + s) (sector_data bytes size (offset_of s)))
    ]

  -- The bytes of the cluster, up to the end of the file, are the file's.
  pub sectors_bytes-drop :
      (n s first start : ℕ) (d : Disk)
      → ((j : ℕ)
          → s ≤ j
          → j < s + n
          → first + j * 512 < size
          → disk_read d (u32 (start + j)) ≡ sector_data bytes size (first + j * 512))
      → take (size - (first + s * 512)) (sectors_bytes d start n s)
        ≡ take (n * 512) (drop (first + s * 512) bytes)
  sectors_bytes-drop zero s first start d written = take-nil (size - (first + s * 512))
  sectors_bytes-drop (suc n) s first start d written =
      let o = first + s * 512 in
      let next : first + (s + 1) * 512 ≡ o + 512 = omega arith in
      let rest =
        sectors_bytes-drop n (s + 1) first start d
          (λ j p q. written j (omega arith) (omega arith)) in
      elim (Bool-cases (ltb o size)) [
        | inr e ↦
            let z : size - o ≡ 0 = ground arith in
            rw (z, drop-all o bytes (ground arith)) (sym (take-nil (suc n * 512)))
        | inl e ↦
            rw (written s (omega arith) (omega arith) (ltb→lt _ _ e))
              (sector_data-append o n (sectors_bytes d start n (s + 1)) (rw next at rest))
      ]
