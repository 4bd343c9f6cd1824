-- ===== src/Net.antt =====
-- src/kernel/net: ethernet.c, arp.c, ipv4.c and icmp.c.
--
-- A packet is the list of its bytes; words in it are little-endian, as on the machine. The state
-- has the ARP cache, the heap's blocks, the card's address, and the frames handed to the driver,
-- the latest last. `none` is a read or a write outside of a buffer: a frame of more than 1514
-- bytes, and an IPv4 packet whose length field goes beyond the frame.
pub mod Checksum
pub mod Arp
pub mod Send
pub mod Echo
pub mod Kept
mod Tests
use sojebos.Common.{ℕ, zero, suc, ◌+◌, ◌-◌, ◌*◌, ◌/◌, ◌%◌, ◌^◌, Bool, true, false, not, ◌&&◌, ◌||◌}
use sojebos.Common.{Option, none, some, List, [], ◌∷◌, ◌++◌, length, take, drop, get_or, replicate}
use sojebos.Common.{ltb, leb, ◌==◌, if◌then◌else◌, u32}
use sojebos.Disk.Fields.{get_u16, get_u32}
use sojebos.Heap.{Block, kmalloc, kfree}

-- `__builtin_bswap16`
unfoldable pub bswap16 : ℕ → ℕ
bswap16 v = v % 256 * 256 + v / 256 % 256

abbrev pub bytes16 : ℕ → List ℕ
bytes16 v = v % 256 ∷ v / 256 % 256 ∷ []

abbrev pub bytes32 : ℕ → List ℕ
bytes32 v = v % 256 ∷ v / 2 ^ 8 % 256 ∷ v / 2 ^ 16 % 256 ∷ v / 2 ^ 24 % 256 ∷ []

-- The first loop of `net_checksum`, and the odd byte
unfoldable pub sum_words : List ℕ → ℕ → ℕ
sum_words [] sum = sum
sum_words (a ∷ []) sum = u32 (sum + a)
sum_words (a ∷ b ∷ rest) sum = sum_words rest (u32 (sum + (a + 256 * b)))

-- The second loop: the carries go back in. `fuel` rounds at most.
unfoldable pub fold_carries : ℕ → ℕ → ℕ
fold_carries zero sum = sum
fold_carries (suc fuel) sum =
    let rest = fold_carries fuel (sum % 2 ^ 16 + sum / 2 ^ 16) in
    if sum / 2 ^ 16 == 0 then sum else rest

unfoldable pub net_checksum : List ℕ → ℕ
net_checksum payload = 2 ^ 16 - 1 - fold_carries 3 (sum_words payload 0) % 2 ^ 16

pub record ArpEntry : Type 0 where
  pub ip : ℕ
  pub mac : List ℕ
  pub assigned : Bool

pub record Net : Type 0 where
  pub arp_cache : List ArpEntry
  pub blocks : List Block
  pub mac_address : List ℕ
  pub sent : List (List ℕ)

-- MAKE_IP(192, 168, 10, 11)
abbrev pub sojeb_os_ip : ℕ
sojeb_os_ip = 192 + 168 * 2 ^ 8 + 10 * 2 ^ 16 + 11 * 2 ^ 24

unfoldable pub ethernet_send_packet : List ℕ → ℕ → List ℕ → Net → Option Net
ethernet_send_packet dest_mac type payload net =
    if ltb 1514 (length payload + 14)
    then none
    else some (record net {
      sent = net.sent ++ (dest_mac ++ net.mac_address ++ bytes16 (bswap16 type) ++ payload) ∷ [];
    })

-- The loop of `arp_handle_packet` over the cache
unfoldable pub arp_save : ℕ → List ℕ → List ArpEntry → List ArpEntry
arp_save ip mac [] = []
arp_save ip mac (e ∷ es) =
    if not e.assigned || (e.ip == ip)
    then record { ip = ip; mac = mac; assigned = true } ∷ es
    else e ∷ arp_save ip mac es

unfoldable pub arp_lookup : ℕ → List ArpEntry → Option (List ℕ)
arp_lookup ip [] = none
arp_lookup ip (e ∷ es) = if e.assigned && (e.ip == ip) then some e.mac else arp_lookup ip es

-- `struct arp_packet` for Ethernet and IPv4
unfoldable pub arp_packet : ℕ → List ℕ → ℕ → List ℕ → ℕ → List ℕ
arp_packet oper src_mac src_ip dest_mac dest_ip =
    bytes16 (bswap16 1)
    ++ bytes16 (bswap16 0x0800)
    ++ 6 ∷ 4 ∷ bytes16 (bswap16 oper)
    ++ src_mac
    ++ bytes32 src_ip
    ++ dest_mac
    ++ bytes32 dest_ip

unfoldable pub arp_handle_packet : List ℕ → Net → Option Net
arp_handle_packet payload net =
    let src_mac = take 6 (drop 8 payload) in
    let src_ip = get_u32 payload 14 in
    let known = record net { arp_cache = arp_save src_ip src_mac net.arp_cache } in
    if ltb (length payload) 28
    then some net
    else if (bswap16 (get_u16 payload 6) == 1) && (get_u32 payload 24 == sojeb_os_ip)
    then ethernet_send_packet src_mac 0x0806
        (arp_packet 2 net.mac_address sojeb_os_ip src_mac src_ip) known
    else some known

unfoldable pub arp_send_request : ℕ → Net → Option Net
arp_send_request target_ip net =
    ethernet_send_packet (replicate 6 255) 0x0806
      (arp_packet 1 net.mac_address sojeb_os_ip (replicate 6 0) target_ip) net

-- The header that `ipv4_send` builds, with its checksum field at `checksum`
unfoldable pub ipv4_header : ℕ → ℕ → ℕ → ℕ → List ℕ
ipv4_header total_len protocol dest_ip checksum =
    69 ∷ 0 ∷ bytes16 (bswap16 total_len)
    ++ 0 ∷ 0 ∷ 0 ∷ 0 ∷ 64 ∷ protocol ∷ bytes16 checksum
    ++ bytes32 sojeb_os_ip
    ++ bytes32 dest_ip

-- The packet, addressed through the cache, or an ARP request in its place
unfoldable pub ipv4_route : ℕ → List ℕ → Net → Option Net
ipv4_route dest_ip packet net = elim (arp_lookup dest_ip net.arp_cache) [
  | some dest_mac ↦ ethernet_send_packet dest_mac 0x0800 packet net
  | none ↦ arp_send_request dest_ip net
]

unfoldable pub ipv4_packet : ℕ → ℕ → List ℕ → List ℕ
ipv4_packet dest_ip protocol payload =
    let total_len = u32 (length payload + 20) in
    ipv4_header total_len protocol dest_ip (net_checksum (ipv4_header total_len protocol dest_ip 0))
    ++ payload

-- `kfree(packet)` at the end of `ipv4_send`
abbrev pub release : ℕ → Net → Option Net
release packet net = elim (kfree packet net.blocks) [
  | none ↦ none
  | some bs ↦ some (record net { blocks = bs })
]

unfoldable pub ipv4_send : ℕ → ℕ → List ℕ → Net → Option Net
ipv4_send dest_ip protocol payload net = elim (kmalloc (u32 (length payload + 20)) net.blocks) [
  | none ↦ some net
  | some r ↦
      elim (ipv4_route dest_ip (ipv4_packet dest_ip protocol payload)
        (record net { blocks = r.1 })) [ none ↦ none | some after ↦ release r.0 after ]
]

-- The reply that `icmp_handle` makes of an echo request
unfoldable pub echo_reply : List ℕ → List ℕ
echo_reply payload =
    0 ∷ 0 ∷ bytes16 (net_checksum (0 ∷ 0 ∷ 0 ∷ 0 ∷ drop 4 payload)) ++ drop 4 payload

-- The packet after `icmp_handle` has made an echo request of `len` bytes into its reply, where it stands
unfoldable pub answered : ℕ → ℕ → List ℕ → List ℕ
answered header_len len packet =
    take header_len packet
    ++ (echo_reply (take len (drop header_len packet)) ++ drop len (drop header_len packet))

-- `packet` is what the frame has from the header at `ip_hdr` on; `data` stands behind `header_len` bytes
-- of it. The result has the packet as it is then: a reply is written over the request before the
-- sender's address is read. The console's line for an echo reply is left out.
unfoldable pub icmp_handle : ℕ → ℕ → List ℕ → Net → Option (List ℕ × Net)
icmp_handle header_len len packet net =
    let icmp = drop header_len packet in
    let after = answered header_len len packet in
    let sent : Option (List ℕ × Net) =
      elim (ipv4_send (get_u32 after 12) 1 (echo_reply (take len icmp)) net) [
        | none ↦ none
        | some net' ↦ some (after, net')
      ] in
    if ltb len 8
    then some (packet, net)
    else if get_or icmp 0 0 == 8
    then if ltb (length icmp) len then none else sent
    else some (packet, net)

unfoldable pub ipv4_handle_packet : List ℕ → Net → Option (List ℕ × Net)
ipv4_handle_packet payload net =
    let header_len = get_or payload 0 0 % 16 * 4 in
    let total_len = bswap16 (get_u16 payload 2) in
    let dest_ip = get_u32 payload 16 in
    if ltb (length payload) 20
    then some (payload, net)
    else if not (dest_ip == sojeb_os_ip) && not (dest_ip == 0xFFFFFFFF)
    then some (payload, net)
    else if ltb total_len header_len
    then some (payload, net)
    else if get_or payload 9 0 == 1
    then icmp_handle header_len (total_len - header_len) payload net
    else some (payload, net)

-- The loop of `ethernet_handle_packet`: six bytes against an address
unfoldable pub same_bytes : ℕ → List ℕ → List ℕ → Bool
same_bytes zero xs ys = true
same_bytes (suc n) xs ys = (get_or xs 0 0 == get_or ys 0 0) && same_bytes n (drop 1 xs) (drop 1 ys)

-- The result has the frame as it is afterwards.
unfoldable pub ethernet_handle_packet : List ℕ → Net → Option (List ℕ × Net)
ethernet_handle_packet payload net =
    let type = bswap16 (get_u16 payload 12) in
    let with_ipv4 : Option (List ℕ × Net) = elim (ipv4_handle_packet (drop 14 payload) net) [
      | none ↦ none
      | some r ↦ some (take 14 payload ++ r.0, r.1)
    ] in
    let with_arp : Option (List ℕ × Net) = elim (arp_handle_packet (drop 14 payload) net) [
      | none ↦ none
      | some net' ↦ some (payload, net')
    ] in
    if ltb (length payload) 14
    then some (payload, net)
    else if not (same_bytes 6 payload (replicate 6 255))
        && not (same_bytes 6 payload net.mac_address)
    then some (payload, net)
    else if type == 0x0800
    then with_ipv4
    else if type == 0x0806
    then with_arp
    else some (payload, net)
