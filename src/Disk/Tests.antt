-- ===== src/Disk/Tests.antt =====
-- The disk's theorem at a concrete input.
use sojebos.Common.{◌≡◌, ◌%◌, ◌^◌, [], ◌∷◌, replicate, ◌==◌, if◌then◌else◌}
use sojebos.Disk.{Disk, disk_read, disk_write}
use sojebos.Disk.Fields.{disk_read-write}

abbrev empty_disk : Disk
empty_disk = λ s. replicate 4 0

disk_read-write_example :
    disk_read (disk_write empty_disk 7 (1 ∷ [])) 8
    ≡ (if 8 % 2 ^ 28 == 7 % 2 ^ 28 then 1 ∷ [] else disk_read empty_disk 8)
disk_read-write_example = disk_read-write empty_disk 7 8 (1 ∷ [])
