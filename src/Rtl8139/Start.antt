-- ===== src/Rtl8139/Start.antt =====
-- src/kernel/drivers/io.h and `rtl8139_init`: the ports, and the writes that set up the card.
--
-- `ports` is what the card's ports give when they are read. The wait for the reset is the card's.
use sojebos.Common.{ℕ, zero, suc, ◌+◌, ◌%◌, ◌^◌, Option, some, none, List, [], ◌∷◌, replicate, u32}
use sojebos.Heap.{Block, kmalloc}
use sojebos.Rtl8139.{Card, out_port, rx_buf_size}

-- A port has 16 bits; a value has 8, 16 or 32.
unfoldable pub outb : ℕ → ℕ → Card → Card
outb port val card = out_port (port % 2 ^ 16) (val % 2 ^ 8) card

unfoldable pub outw : ℕ → ℕ → Card → Card
outw port val card = out_port (port % 2 ^ 16) (val % 2 ^ 16) card

unfoldable pub outl : ℕ → ℕ → Card → Card
outl port val card = out_port (port % 2 ^ 16) (val % 2 ^ 32) card

unfoldable pub inb : (ℕ → ℕ) → ℕ → ℕ
inb ports port = ports (port % 2 ^ 16) % 2 ^ 8

abbrev pub rx_total_size : ℕ
rx_total_size = rx_buf_size + 16 + 1500

-- The writes, with the receive buffer at `buffer`
unfoldable pub configure : ℕ → ℕ → Card → Card
configure base buffer card = outb (u32 (base + 0x37)) 0x0C (
    outl (u32 (base + 0x44)) (0x0E + 2 ^ 7) (
      outw (u32 (base + 0x3C)) 0x0005 (
        outl (u32 (base + 0x30)) buffer
          (outb (u32 (base + 0x37)) 0x10 (outb (u32 (base + 0x52)) 0x00 card)))))

-- The loop over `mac_address`, `n` bytes from byte `i`
unfoldable pub read_mac : (ℕ → ℕ) → ℕ → ℕ → ℕ → List ℕ
read_mac ports base zero i = []
read_mac ports base (suc n) i = inb ports (u32 (base + i)) ∷ read_mac ports base n (i + 1)

-- The card, the heap's blocks and the card's address. The result of `kmalloc` is not tested: `none` is
-- a write at NULL.
unfoldable pub rtl8139_init : (ℕ → ℕ) → ℕ → List Block → Card → Option (Card × List Block × List ℕ)
rtl8139_init ports pci_io_base blocks card = elim (kmalloc rx_total_size blocks) [
  | none ↦ none
  | some (buffer, bs) ↦ some (
    configure pci_io_base buffer
        (record card { io_base = pci_io_base; rx_buffer = replicate rx_total_size 0 }),
    bs,
    read_mac ports pci_io_base 6 0,
  )
]
