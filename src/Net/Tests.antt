-- ===== src/Net/Tests.antt =====
-- Examples: a cache with two entries, a small heap, and an echo request.
use sojebos.Common.{ℕ, ◌≡◌, refl, true, false, arith}
use sojebos.Common.{some, none, List, [], ◌∷◌, ◌++◌, take}
use sojebos.Heap.{kmalloc, kheap_init}
use sojebos.Heap.Inv.{kheap_init-IsValid}
use sojebos.Net.{ArpEntry, Net, arp_lookup, net_checksum, sum_words, fold_carries, ipv4_packet}
use mathlib.Core.Option.{none-ne-some}
use sojebos.Heap.{kmalloc_from}
use sojebos.Common.{sym}
use sojebos.Net.Echo.{request, ethernet_handle_packet-replied}
use sojebos.Common.{drop, ◌≢◌}
use sojebos.Net.{ethernet_handle_packet, echo_reply}
use sojebos.Net.Checksum.{net_checksum-verifies}
use sojebos.Net.Send.{frame}

abbrev cache : List ArpEntry
cache =
    record { ip = 7; mac = 1 ∷ 2 ∷ 3 ∷ 4 ∷ 5 ∷ 6 ∷ []; assigned = true }
    ∷ record { ip = 0; mac = []; assigned = false }
    ∷ []

abbrev net : Net
net = record {
  arp_cache = cache;
  blocks = kheap_init 0x300000 4096;
  mac_address = 82 ∷ 84 ∷ 0 ∷ 18 ∷ 52 ∷ 86 ∷ [];
  sent = [];
}

abbrev ping : List ℕ
ping = 8 ∷ 0 ∷ 0 ∷ 0 ∷ 1 ∷ 2 ∷ 0 ∷ 1 ∷ 97 ∷ []

word_check : net_checksum (0 ∷ 0 ∷ 0 ∷ 0 ∷ 1 ∷ 104 ∷ []) ≡ 38910
unfolding net_checksum sum_words fold_carries
word_check = refl

net_checksum-verifies_example : net_checksum (0 ∷ 0 ∷ 254 ∷ 151 ∷ 1 ∷ 104 ∷ []) ≡ 0
net_checksum-verifies_example =
    net_checksum-verifies (0 ∷ 0 ∷ []) (1 ∷ 104 ∷ []) (ground arith) (omega arith) refl 38910
      word_check

known : arp_lookup 7 cache ≡ some (1 ∷ 2 ∷ 3 ∷ 4 ∷ 5 ∷ 6 ∷ [])
unfolding arp_lookup
known = refl

memory_left : kmalloc 29 net.blocks ≢ none
unfolding kmalloc kmalloc_from kheap_init
memory_left e = absurd (none-ne-some _ (sym e))

ethernet_handle_packet-replied_example :
    ((left : List ℕ) × (ethernet_handle_packet
          (frame net.mac_address
            (1 ∷ 2 ∷ 3 ∷ 4 ∷ 5 ∷ 6 ∷ [])
            0x0800
            (request 0 1 64 0 7 ping (0 ∷ 0 ∷ [])))
          net
        ≡ some (
          left,
          record net {
            sent =
                net.sent
                ++ frame
                    (1 ∷ 2 ∷ 3 ∷ 4 ∷ 5 ∷ 6 ∷ [])
                    net.mac_address
                    0x0800
                    (ipv4_packet 7 1 (echo_reply ping))
                  ∷ [];
          },
        )))
    × (net_checksum (take 20 (ipv4_packet 7 1 (echo_reply ping))) ≡ 0)
    × (net_checksum (echo_reply ping) ≡ 0)
    × (take 2 (echo_reply ping) ≡ 0 ∷ 0 ∷ [])
    × (drop 4 (echo_reply ping) ≡ drop 4 ping)
ethernet_handle_packet-replied_example =
    ethernet_handle_packet-replied 0x300000 0x301000 0 1 64 0 7 (drop 1 ping) (0 ∷ 0 ∷ [])
      (1 ∷ 2 ∷ 3 ∷ 4 ∷ 5 ∷ 6 ∷ []) (1 ∷ 2 ∷ 3 ∷ 4 ∷ 5 ∷ 6 ∷ []) net
      (kheap_init-IsValid 0x300000 4096 (omega arith) refl refl (omega arith) (omega arith)) refl
      refl (omega arith) (ground arith) (omega arith) (omega arith) memory_left known
