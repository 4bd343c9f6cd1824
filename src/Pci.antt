-- ===== src/Pci.antt =====
-- src/kernel/drivers/pci.c: configuration registers, and the search for the network card.
--
-- `config` is the hardware: the register that the bus gives for the number written to port 0xCF8.
pub mod Search
mod Tests
use sojebos.Common.{ℕ, zero, suc, ◌+◌, ◌-◌, ◌*◌, ◌/◌, ◌%◌, ◌^◌, ◌==◌, if◌then◌else◌, bit_or}

-- The fields of the address, from the lowest one up
unfoldable pub pci_address : ℕ → ℕ → ℕ → ℕ → ℕ
pci_address bus slot func offset =
    bit_or
      (bit_or (bit_or (bit_or (offset % 256 / 4 * 4) (func * 2 ^ 8)) (slot * 2 ^ 11))
        (bus * 2 ^ 16))
      (1 * 2 ^ 31)

module _ (config : ℕ → ℕ) where
  unfoldable pub pci_read_long : ℕ → ℕ → ℕ → ℕ → ℕ
  pci_read_long bus slot func offset = config (pci_address bus slot func offset)

  unfoldable pub pci_read_word : ℕ → ℕ → ℕ → ℕ → ℕ
  pci_read_word bus slot func offset =
      pci_read_long bus slot func offset / 2 ^ (offset / 2 % 2 * 2 * 8) % 2 ^ 16

  -- `n` more slots of a bus from `slot` on; 0 where the card is not found.
  unfoldable pub find_in_slots : ℕ → ℕ → ℕ → ℕ → ℕ
  find_in_slots bus zero slot otherwise = otherwise
  find_in_slots bus (suc n) slot otherwise =
      let rest = find_in_slots bus n (slot + 1) otherwise in
      if pci_read_word bus slot 0 0 == 0x10EC
      then if pci_read_word bus slot 0 2 == 0x8139
        then pci_read_long bus slot 0 0x10 / 2 * 2
        else rest
      else rest

  unfoldable pub find_in_buses : ℕ → ℕ → ℕ
  find_in_buses zero bus = 0
  find_in_buses (suc n) bus = let rest = find_in_buses n (bus + 1) in find_in_slots bus 32 0 rest

  unfoldable pub pci_find_rtl8139 : ℕ
  pci_find_rtl8139 = find_in_buses 256 0
