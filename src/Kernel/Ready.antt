-- ===== src/Kernel/Ready.antt =====
-- What the shell starts with: the invariants of the parts hold.
use mathlib.Core.Option.{none-ne-some, some_inj}
use sojebos.Apps.{World, show}
use sojebos.Apps.Registered.{register_all_apps}
use sojebos.Common.{
  ℕ, ◌+◌, ◌*◌, ap, ◌%◌, ◌^◌, ◌<◌, ◌≤◌, ◌≡◌, ◌≢◌, refl, sym, ◌∙◌, inl, inr, arith, true, some, none,
  Option-cases, Bool-cases, List, [], ◌∷◌, replicate, ltb, u32,
}
use sojebos.Fat32.{mount, fat32_init}
use sojebos.Gdt.{GdtEntry, tss_size}
use sojebos.Gdt.Segments.{tss_init-gdt_init}
use sojebos.Heap.{Block, kheap_init, kmalloc, kmalloc_from, carve}
use sojebos.Heap.Inv.{IsValid, kheap_init-IsValid}
use sojebos.Heap.Malloc.{kmalloc-IsValid}
use sojebos.Kernel.{
  Booted, heap_size, with_apps, start_network, start_system, boot, with_blocks, with_card,
  system_world,
}
use sojebos.Kernel.Blocks.{Holds, Taken, taken-Holds, kept-Holds, apps_aligned, packets_aligned}
use sojebos.Kernel.Banner.{no_network}
use sojebos.Paging.{identity_tables}
use sojebos.Paging.Init.{paging_init-tables}
use sojebos.Paging.Walk.{IsSeparated}
use sojebos.Pci.{pci_find_rtl8139}
use sojebos.Rtl8139.Start.{rtl8139_init, rx_total_size, configure, read_mac}
use sojebos.Vfs.{vfs_init}

-- The heap is valid, the tables are in frames of their own, the volume is the disk's, and its root is
-- the current directory.
pub record IsReady (heap_start : ℕ) (before : World) (w : World) : Type 0 where
  pub heap : IsValid heap_start (heap_start + heap_size) w.system.machine.blocks
  pub tables : IsSeparated w.system.paging
  pub volume : w.system.machine.files.fs ≡ mount before.system.machine.files.disk
  pub root :
      w.system.machine.files.current_dir_cluster
      ≡ (mount before.system.machine.files.disk).root_cluster
  pub disk : w.system.machine.files.disk ≡ before.system.machine.files.disk
  pub keys : w.input ≡ before.input

-- The vector of apps takes the first block, and the receive buffer finds room behind it.
room_for_apps : (start : ℕ) → kmalloc 128 (kheap_init start heap_size) ≢ none
unfolding kmalloc kmalloc_from kheap_init
room_for_apps start e = absurd (none-ne-some _ (sym e))

room_for_packets :
    (start p : ℕ) (bs : List Block)
    → kmalloc 128 (kheap_init start heap_size) ≡ some (p, bs)
    → kmalloc rx_total_size bs ≢ none
unfolding kmalloc kmalloc_from kheap_init carve
room_for_packets start p bs e f =
    let left = ap (λ r. r.1) (some_inj.0 e) in
    absurd (none-ne-some _ (sym (ap (kmalloc rx_total_size) left ∙ f)))

apps_registered :
    (heap_start : ℕ) (w : World)
    → w.system.machine.blocks ≡ kheap_init heap_start heap_size
    → (with_apps w).0 ≡ register_all_apps true
unfolding with_apps
apps_registered heap_start w fresh = elim (Option-cases (kmalloc 128 w.system.machine.blocks)) [
  | inl e ↦ absurd (room_for_apps heap_start (ap (kmalloc 128) (sym fresh) ∙ e))
  | inr (r, e) ↦ rw (e, with_apps) refl
]

module _ (heap_start tables tss_address kernel_stack_top : ℕ) (config ports : ℕ → ℕ)
    (positive : 0 < heap_start) (aligned : heap_start % 4 ≡ 0)
    (inside : heap_start + heap_size ≤ 2 ^ 26) (pages : tables % 4096 ≡ 0)
    (below : tables + 4 * 4096 ≤ heap_start + heap_size) where
  start_system-IsReady :
      (w : World)
      → (w' : World) × (start_system heap_start tables tss_address kernel_stack_top config ports w
          ≡ some w')
        × IsReady heap_start w w'
        × (w'.system.machine.blocks ≡ kheap_init heap_start heap_size)
        × (w'.card ≡ w.card)
  unfolding start_system vfs_init fat32_init
  start_system-IsReady w =
      let same : u32 (heap_start + heap_size) ≡ heap_start + heap_size = omega arith in
      let (first, eq, entries, separated) =
        paging_init-tables tables (heap_start + heap_size) w.system.paging.memory pages below
          inside in
      (
        system_world heap_start tables tss_address kernel_stack_top config ports
            (identity_tables 4 0 tables first) w,
        rw (same, eq, start_system) refl,
        record {
          heap =
              kheap_init-IsValid heap_start heap_size positive aligned refl (omega arith)
                (omega arith);
          tables = separated;
          volume = refl;
          root = refl;
          disk = refl;
          keys = refl;
        },
        refl,
        refl,
      )

  with_apps-IsReady :
      (before w : World)
      → IsReady heap_start before w
      → w.system.machine.blocks ≡ kheap_init heap_start heap_size
      → IsReady heap_start before (with_apps w).1
        × (kmalloc rx_total_size (with_apps w).1.system.machine.blocks ≢ none)
        × ((with_apps w).1.card ≡ w.card)
        × ((p : ℕ) × Holds p 128 (with_apps w).1.system.machine.blocks)
  unfolding with_apps
  with_apps-IsReady before w ready fresh =
      elim (Option-cases (kmalloc 128 w.system.machine.blocks)) [
        | inl e ↦ absurd (room_for_apps heap_start (ap (kmalloc 128) (sym fresh) ∙ e))
        | inr ((p, bs), e) ↦
            rw (e, with_apps)
              (
                record {
                  heap =
                      kmalloc-IsValid heap_start (heap_start + heap_size) 128
                        w.system.machine.blocks ready.heap e;
                  tables = ready.tables;
                  volume = ready.volume;
                  root = ready.root;
                  disk = ready.disk;
                  keys = ready.keys;
                },
                room_for_packets heap_start p bs (ap (kmalloc 128) (sym fresh) ∙ e),
                refl,
                (
                  p,
                  taken-Holds heap_start (heap_start + heap_size) w.system.machine.blocks ready.heap
                      0 128 e apps_aligned,
                ),
              )
      ]

  start_network-IsReady :
      (io : ℕ) (before w : World)
      → IsReady heap_start before w
      → kmalloc rx_total_size w.system.machine.blocks ≢ none
      → w.card ≡ before.card
      → (p : ℕ) × Holds p 128 w.system.machine.blocks
      → (w' : World) × (start_network ports io w ≡ some w')
        × IsReady heap_start before w'
        × Taken io before w'
  unfolding start_network rtl8139_init
  start_network-IsReady io before w ready room card_kept (p, held) = elim (Bool-cases (ltb 0 io)) [
    | inr no_card ↦ (
      show no_network w,
      rw (no_card, start_network) refl,
      record {
        heap = ready.heap;
        tables = ready.tables;
        volume = ready.volume;
        root = ready.root;
        disk = ready.disk;
        keys = ready.keys;
      },
      (p, held, inl no_card),
    )
    | inl card ↦ elim (Option-cases (kmalloc rx_total_size w.system.machine.blocks)) [
      | inl e ↦ absurd (room e)
      | inr ((q, bs), e) ↦ (
        with_card
            (configure io q (record w.card { io_base = io; rx_buffer = replicate rx_total_size 0 }))
            (read_mac ports io 6 0) (with_blocks bs w),
        rw (card, start_network, e, rtl8139_init) refl,
        record {
          heap =
              kmalloc-IsValid heap_start (heap_start + heap_size) rx_total_size
                w.system.machine.blocks ready.heap e;
          tables = ready.tables;
          volume = ready.volume;
          root = ready.root;
          disk = ready.disk;
          keys = ready.keys;
        },
        (let (other, still) =
              kept-Holds heap_start (heap_start + heap_size) w.system.machine.blocks ready.heap 128
                rx_total_size held e in
            (
              p,
              still,
              inr (
                q,
                other,
                taken-Holds heap_start (heap_start + heap_size) w.system.machine.blocks ready.heap 0
                    rx_total_size e packets_aligned,
                ap
                    (λ c.
                      configure io q
                        (record c { io_base = io; rx_buffer = replicate {A = ℕ} rx_total_size 0 }))
                    card_kept,
              ),
            )),
      )
    ]
  ]

-- `kernel_main` comes to the shell, whether the bus has a network card or not. Then the heap is valid,
-- with the array of the vector of apps in a block in use and, where there is a card, the receive buffer
-- in another, whose address the card is set up with; the page tables are in frames of their own,
-- the volume that the disk describes is mounted with its root as the current directory, disk and
-- keyboard are as they were, all fourteen apps are registered, and the task state segment has the
-- stack. The heap begins behind address 0 at a multiple of 4 and ends within 64 MB; the four tables
-- are aligned and lie below its end; the table of segments has six entries.
pub boot-IsReady :
    (heap_start tables tss_address esp : ℕ) (config ports : ℕ → ℕ) (a b c d e f : GdtEntry)
    (w : World)
    → 0 < heap_start
    → heap_start % 4 ≡ 0
    → heap_start + heap_size ≤ 2 ^ 26
    → tables % 4096 ≡ 0
    → tables + 4 * 4096 ≤ heap_start + heap_size
    → tss_address < 2 ^ 32
    → (r : Booted) × (boot heap_start tables tss_address esp config ports
          (a ∷ b ∷ c ∷ d ∷ e ∷ f ∷ [])
          w
        ≡ some r)
      × IsReady heap_start w r.world
      × Taken (pci_find_rtl8139 config) w r.world
      × (r.apps ≡ register_all_apps true)
      × (r.tss ≡ record { ss0 = 0x10; esp0 = esp; iomap_base = tss_size })
unfolding boot
boot-IsReady heap_start tables tss_address esp config ports a b c d e f w positive aligned inside
      pages below address =
    let (mid, after, segments, tss, _, _, _, _, _) =
      tss_init-gdt_init a b c d e f tss_address esp address in
    let (started, eq, ready, fresh, card0) =
      start_system-IsReady heap_start tables tss_address esp config ports positive aligned inside
        pages below w in
    let (ready', room, same_card, vector) =
      with_apps-IsReady heap_start tables tss_address esp config ports positive aligned inside pages
        below w started ready fresh in
    let (world, eq', ready'', taken) =
      start_network-IsReady heap_start tables tss_address esp config ports positive aligned inside
        pages below (pci_find_rtl8139 config) w (with_apps started).1 ready' room
        (same_card ∙ card0) vector in
    (
      record {
        world = world;
        apps = (with_apps started).0;
        gdt = after;
        tss = record { ss0 = 0x10; esp0 = esp; iomap_base = tss_size };
      },
      rw (segments, tss, eq, eq') refl,
      ready'',
      taken,
      apps_registered heap_start started fresh,
      refl,
    )
