-- ===== src/Kernel/Tests.antt =====
-- Examples: a kernel that ends at 1 MB, without a network card.
use sojebos.Apps.Registered.{register_all_apps}
use sojebos.Apps.Tests.{desk}
use sojebos.Common.{◌≡◌, arith, true, some, [], ◌∷◌}
use sojebos.Gdt.{tss_size}
use sojebos.Gdt.Tests.{zeros}
use sojebos.Kernel.{Booted, boot}
use sojebos.Pci.{pci_find_rtl8139}
use sojebos.Kernel.Blocks.{Taken}
use sojebos.Kernel.Ready.{IsReady, boot-IsReady}

boot-IsReady_example :
    (r : Booted) × (boot 0x100000 0xf0000 0xe0000 0xd0000
        (λ q. 0)
        (λ q. 0)
        (zeros ∷ zeros ∷ zeros ∷ zeros ∷ zeros ∷ zeros ∷ [])
        (desk [])
      ≡ some r)
    × IsReady 0x100000 (desk []) r.world
    × Taken (pci_find_rtl8139 (λ q. 0)) (desk []) r.world
    × (r.apps ≡ register_all_apps true)
    × (r.tss ≡ record { ss0 = 0x10; esp0 = 0xd0000; iomap_base = tss_size })
boot-IsReady_example =
    boot-IsReady 0x100000 0xf0000 0xe0000 0xd0000 (λ q. 0) (λ q. 0) zeros zeros zeros zeros zeros
      zeros (desk []) (omega arith) (omega arith) (omega arith) (omega arith) (omega arith)
      (omega arith)
