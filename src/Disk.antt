-- ===== src/Disk.antt =====
-- src/kernel/fs/disk.c and ata.c: sectors of 512 bytes behind the ATA registers, and the
-- little-endian fields that the file system reads and writes in a sector's bytes.
--
-- The drive itself is hardware: a disk is a function from the 28-bit address that the registers
-- select to the bytes of that sector. The waits for its status are not modelled.
pub mod Fields
mod Tests
use sojebos.Common.{ℕ, ◌+◌, ◌*◌, ◌/◌, ◌%◌, ◌^◌, List, ◌==◌, if◌then◌else◌, bit_or}

abbrev pub Disk : Type 0
Disk = ℕ → List ℕ

-- What `ata_read_sector` and `ata_write_sector` put into the drive, low, mid and high registers.
pub record Registers : Type 0 where
  pub drive : ℕ
  pub low : ℕ
  pub mid : ℕ
  pub high : ℕ

unfoldable pub ata_select : ℕ → Registers
ata_select lba = record {
  drive = bit_or 0xe0 (lba / 2 ^ 24 % 16);
  low = lba % 256;
  mid = lba / 2 ^ 8 % 256;
  high = lba / 2 ^ 16 % 256;
}

-- The sector that a drive selects in LBA mode: 28 bits, the top four in the drive register.
unfoldable pub selected : Registers → ℕ
selected r = r.drive % 16 * 2 ^ 24 + r.high * 2 ^ 16 + r.mid * 2 ^ 8 + r.low

unfoldable pub ata_read_sector : Disk → ℕ → List ℕ
unfolding ata_select selected
ata_read_sector d lba = d (selected (ata_select lba))

unfoldable pub ata_write_sector : Disk → ℕ → List ℕ → Disk
unfolding ata_select selected
ata_write_sector d lba buffer = λ s. if s == selected (ata_select lba) then buffer else d s

unfoldable pub disk_read : Disk → ℕ → List ℕ
unfolding ata_read_sector
disk_read d sector = ata_read_sector d sector

unfoldable pub disk_write : Disk → ℕ → List ℕ → Disk
unfolding ata_write_sector
disk_write d sector buffer = ata_write_sector d sector buffer
