-- ===== src/Pci/Tests.antt =====
-- Examples: a bus with the card in slot 3.
use sojebos.Common.{ℕ, ◌+◌, ◌*◌, ◌^◌, ◌==◌, if◌then◌else◌, arith, refl}
use sojebos.Pci.{pci_read_long, pci_read_word}
use sojebos.Pci.Search.{IsCard, pci_address_lem}

abbrev one_card : ℕ → ℕ
one_card address = if address == 2 ^ 31 + 3 * 2 ^ 11 then 0x813910EC else 0

slot_three : IsCard one_card 0 3
unfolding pci_read_word pci_read_long
slot_three =
    let low = pci_address_lem 0 3 0 0 (omega arith) (omega arith) (omega arith) in
    let high = pci_address_lem 0 3 0 2 (omega arith) (omega arith) (omega arith) in
    (rw low refl, rw high refl)
