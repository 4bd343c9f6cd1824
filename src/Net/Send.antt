-- ===== src/Net/Send.antt =====
-- What `ipv4_send` hands to the driver, and what a receiver of it checks.
use sojebos.Common.{ℕ, zero, suc, ◌+◌, ◌<◌, ◌≤◌, ◌≡◌, refl, inl, inr, ◌⊎◌, arith}
use sojebos.Common.{
  some, none, List, [], ◌∷◌, ◌++◌, length, take, drop, replicate, All, Option-cases, u32, le→ltb,
  length-append, length-drop,
}
use sojebos.Heap.{kmalloc}
use sojebos.Heap.Inv.{IsValid}
use sojebos.Heap.Undo.{kfree-kmalloc}
use sojebos.Net.{
  Net, ethernet_send_packet, arp_lookup, arp_packet, arp_send_request, ipv4_route, ipv4_packet,
  ipv4_header, ipv4_send, echo_reply, net_checksum, bytes16, bytes32, bswap16, sojeb_os_ip, release,
}
use sojebos.Net.Checksum.{IsBytes, net_checksum-verifies}

-- An Ethernet frame
abbrev pub frame : List ℕ → List ℕ → ℕ → List ℕ → List ℕ
frame dest_mac src_mac type payload = dest_mac ++ src_mac ++ bytes16 (bswap16 type) ++ payload

-- The frames that a packet for `dest_ip` becomes
unfoldable pub routed : ℕ → List ℕ → Net → List ℕ
routed dest_ip packet net = elim (arp_lookup dest_ip net.arp_cache) [
  | some dest_mac ↦ frame dest_mac net.mac_address 0x0800 packet
  | none ↦
      frame (replicate 6 255) net.mac_address 0x0806
        (arp_packet 1 net.mac_address sojeb_os_ip (replicate 6 0) dest_ip)
]

ethernet_send_packet-fits :
    (dest_mac : List ℕ) (type : ℕ) (payload : List ℕ) (net : Net)
    → length payload ≤ 1500
    → ethernet_send_packet dest_mac type payload net
      ≡ some (record net { sent = net.sent ++ frame dest_mac net.mac_address type payload ∷ [] })
unfolding ethernet_send_packet
ethernet_send_packet-fits dest_mac type payload net h =
    rw (le→ltb 1514 (length payload + 14) (omega arith)) refl

length-arp_packet :
    (oper src_ip dest_ip : ℕ) (src_mac dest_mac : List ℕ)
    → length src_mac ≡ 6
    → length dest_mac ≡ 6
    → length (arp_packet oper src_mac src_ip dest_mac dest_ip) ≡ 28
unfolding arp_packet
length-arp_packet oper src_ip dest_ip src_mac dest_mac s d = omega (
  arith,
  length-append (src_mac ++ bytes32 src_ip ++ dest_mac) (bytes32 dest_ip),
  length-append (src_mac ++ bytes32 src_ip) dest_mac,
  length-append src_mac (bytes32 src_ip),
  s,
  d,
)

ipv4_route-routed :
    (dest_ip : ℕ) (packet : List ℕ) (net : Net)
    → length net.mac_address ≡ 6
    → length packet ≤ 1500
    → ipv4_route dest_ip packet net
      ≡ some (record net { sent = net.sent ++ routed dest_ip packet net ∷ [] })
unfolding ipv4_route routed arp_send_request
ipv4_route-routed dest_ip packet net six h =
    elim (Option-cases (arp_lookup dest_ip net.arp_cache)) [
      | inl e ↦
          rw (e, ipv4_route, routed)
            (ethernet_send_packet-fits (replicate 6 255) 0x0806 _ net (
              omega (
                arith,
                length-arp_packet 1 sojeb_os_ip dest_ip net.mac_address (replicate 6 0) six refl,
              )))
      | inr (mac, e) ↦
          rw (e, ipv4_route, routed) (ethernet_send_packet-fits mac 0x0800 packet net h)
    ]

length-ipv4_packet :
    (dest_ip protocol : ℕ) (payload : List ℕ)
    → length (ipv4_packet dest_ip protocol payload) ≡ length payload + 20
unfolding ipv4_packet ipv4_header
length-ipv4_packet dest_ip protocol payload = omega arith

pub ipv4_send_lem :
    (start end dest_ip protocol : ℕ) (payload : List ℕ) (net : Net)
    → IsValid start end net.blocks
    → length net.mac_address ≡ 6
    → length payload ≤ 1480
    → ((kmalloc (length payload + 20) net.blocks ≡ none)
        × (ipv4_send dest_ip protocol payload net ≡ some net))
      ⊎ (ipv4_send dest_ip protocol payload net
          ≡ some (record net {
            sent = net.sent ++ routed dest_ip (ipv4_packet dest_ip protocol payload) net ∷ [];
          }))
unfolding ipv4_send routed
ipv4_send_lem start end dest_ip protocol payload net v six h =
    let size : u32 (length payload + 20) ≡ length payload + 20 = omega arith in
    let packet = ipv4_packet dest_ip protocol payload in
    elim (Option-cases (kmalloc (length payload + 20) net.blocks)) [
      | inl e ↦ inl (e, rw (ipv4_send, size, e) refl)
      | inr ((p, after), e) ↦
          let sends =
            ipv4_route-routed dest_ip packet (record net { blocks = after }) six
              (omega (arith, length-ipv4_packet dest_ip protocol payload)) in
          let back = kfree-kmalloc start end (length payload + 20) net.blocks v e in
          inr (rw (ipv4_send, size, e) (rw sends (rw (back, release) refl)))
    ]

-- The header of every packet that `ipv4_send` builds has a checksum that verifies.
pub net_checksum-ipv4_packet :
    (dest_ip protocol : ℕ) (payload : List ℕ)
    → protocol < 256
    → net_checksum (take 20 (ipv4_packet dest_ip protocol payload)) ≡ 0
unfolding ipv4_packet ipv4_header
net_checksum-ipv4_packet dest_ip protocol payload ph =
    let total = u32 (length payload + 20) in
    net_checksum-verifies (69 ∷ 0 ∷ bytes16 (bswap16 total) ++ 0 ∷ 0 ∷ 0 ∷ 0 ∷ 64 ∷ protocol ∷ [])
      (bytes32 sojeb_os_ip ++ bytes32 dest_ip) (ground arith) (omega arith) refl
      (net_checksum (ipv4_header total protocol dest_ip 0)) refl

drop-All : (n : ℕ) (xs : List ℕ) → IsBytes xs → IsBytes (drop n xs)
drop-All zero xs h = h
drop-All (suc n) [] h = h
drop-All (suc n) (x ∷ xs) h = drop-All n xs h.1

-- The echo reply to a message of 8 to 65535 bytes has type 0 and the message's bytes from the fourth
-- on, and its checksum verifies.
pub net_checksum-echo_reply :
    (payload : List ℕ)
    → All (λ b. b < 256) payload
    → 8 ≤ length payload
    → length payload ≤ 65535
    → (net_checksum (echo_reply payload) ≡ 0)
      × (take 2 (echo_reply payload) ≡ 0 ∷ 0 ∷ [])
      × (drop 4 (echo_reply payload) ≡ drop 4 payload)
unfolding echo_reply
net_checksum-echo_reply payload bytes least most =
    let body = drop 4 payload in
    (
      net_checksum-verifies (0 ∷ 0 ∷ []) body
          (omega arith, (omega arith, (omega arith, (omega arith, drop-All 4 payload bytes))))
          (omega (arith, length-drop 4 payload)) refl (net_checksum (0 ∷ 0 ∷ 0 ∷ 0 ∷ body)) refl,
      refl,
      refl,
    )
