-- ===== src/Kernel.antt =====
-- src/kernel/kernel.c: the start of the system, up to the shell.
--
-- The addresses that the linker and the stack choose, the first memory, the PCI configuration and the
-- card's ports are arguments. The texts of the banner are one text.
pub mod Banner
pub mod Blocks
pub mod Ready
mod Tests
use sojebos.Apps.{World, show}
use sojebos.Apps.Registered.{App, register_all_apps}
use sojebos.Common.{ℕ, ◌+◌, ◌*◌, true, false, Option, some, none, List, ltb, if◌then◌else◌, u32}
use sojebos.Console.{console_clear}
use sojebos.Gdt.{GdtEntry, TssEntry, gdt_init, tss_init}
use sojebos.Heap.{Block, kheap_init, kmalloc}
use sojebos.Kernel.Banner.{welcome, network_found, no_network}
use sojebos.Paging.{Paging, paging_init}
use sojebos.Pci.{pci_find_rtl8139}
use sojebos.Rtl8139.{Card}
use sojebos.Rtl8139.Start.{rtl8139_init}
use sojebos.Shell.Run.{Ended, Frame, shell_run}
use sojebos.Vfs.{vfs_init}

infixl 1 ◌>>=◌
abbrev ◌>>=◌ : {A B : Type 0} → Option A → (A → Option B) → Option B
none >>= f = none
some a >>= f = f a

abbrev pub heap_size : ℕ
heap_size = 4 * 1024 * 1024

-- What the shell starts with
pub record Booted : Type 0 where
  pub world : World
  pub apps : List (List ℕ × App)
  pub gdt : List GdtEntry
  pub tss : TssEntry

abbrev pub with_blocks : List Block → World → World
with_blocks bs w = record w {
  system = record w.system { machine = record w.system.machine { blocks = bs } };
}

-- `register_all_apps`: the vector's first array has sixteen elements of eight bytes.
unfoldable pub with_apps : World → List (List ℕ × App) × World
with_apps w = elim (kmalloc 128 w.system.machine.blocks) [
  | none ↦ (register_all_apps false, w)
  | some (items, bs) ↦ (register_all_apps true, with_blocks bs w)
]

abbrev pub with_card : Card → List ℕ → World → World
with_card card mac w =
    show network_found (record w { card = card; net = record w.net { mac_address = mac } })

-- The network card, where there is one
unfoldable pub start_network : (ℕ → ℕ) → ℕ → World → Option World
start_network ports rtl_io w =
    let found : Option World = elim (rtl8139_init ports rtl_io w.system.machine.blocks w.card) [
      | none ↦ none
      | some (card, bs, mac) ↦ some (with_card card mac (with_blocks bs w))
    ] in
    if ltb 0 rtl_io then found else some (show no_network w)

module _ (heap_start tables tss_address kernel_stack_top : ℕ) (config ports : ℕ → ℕ) where
  abbrev pub system_world : Paging → World → World
  system_world paging w = show welcome (record w {
    console = console_clear w.console;
    system = record w.system {
      paging = paging;
      machine = vfs_init (record w.system.machine { blocks = kheap_init heap_start heap_size });
    };
  })

  -- The heap, the page tables and the file system, and the cleared screen with the banner
  unfoldable pub start_system : World → Option World
  start_system w = do
    paging ← paging_init tables (u32 (heap_start + heap_size)) w.system.paging.memory
    some (system_world paging w)

  -- `kernel_main` up to the call of `shell_run`
  unfoldable pub boot : List GdtEntry → World → Option Booted
  boot gdt w = do
    with_segments ← gdt_init gdt
    (tss, with_tss) ← tss_init tss_address 5 0x10 kernel_stack_top with_segments
    started ← start_system w
    ready ← start_network ports (pci_find_rtl8139 config) (with_apps started).1
    some (record { world = ready; apps = (with_apps started).0; gdt = with_tss; tss = tss })

  -- The shell, with what it needs beside: the stacks, and a bound of its lines
  unfoldable pub kernel_main : Frame → ℕ → List ℕ → List GdtEntry → World → Option Ended
  kernel_main f lines input gdt w = do b ← boot gdt w; shell_run f b.apps lines input b.world
