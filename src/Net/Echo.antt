-- ===== src/Net/Echo.antt =====
-- An echo request from the wire, through ethernet.c, ipv4.c and icmp.c, to the reply on the wire.
use mathlib.Core.List.{append_assoc}
use sojebos.Common.{
  ℕ, ◌+◌, ◌-◌, ◌*◌, ◌/◌, ◌%◌, ◌^◌, ◌<◌, ◌≤◌, ◌≡◌, ◌≢◌, refl, sym, ap, ◌∙◌, inl, inr, arith, true,
  false, some, none, List, [], ◌∷◌, ◌++◌, length, length-append, take, drop, length-drop, drop_add,
  drop-length, take-length, get_or, get_or-append_right, All, ltb, le→ltb, Bool-cases, replicate,
}
use sojebos.Disk.Fields.{get_u16, get_u32}
use sojebos.Heap.{kmalloc}
use sojebos.Heap.Inv.{IsValid}
use sojebos.Net.{
  Net, bswap16, bytes16, bytes32, sojeb_os_ip, arp_lookup, ipv4_packet, ipv4_send, echo_reply,
  answered, icmp_handle, ipv4_handle_packet, same_bytes, ethernet_handle_packet, net_checksum,
}
use sojebos.Net.Send.{
  frame, routed, ipv4_send_lem, net_checksum-ipv4_packet, net_checksum-echo_reply,
}

drop_addresses :
    (dest src rest : List ℕ)
    → length dest ≡ 6
    → length src ≡ 6
    → drop 12 (dest ++ (src ++ rest)) ≡ rest
drop_addresses dest src rest d s =
    drop_add 6 6 (dest ++ (src ++ rest))
    ∙ ap (drop 6)
        (ap (λ k. drop k (dest ++ (src ++ rest))) (sym d) ∙ drop-length dest (src ++ rest))
    ∙ ap (λ k. drop k (src ++ rest)) (sym s)
    ∙ drop-length src rest

get_or_addresses :
    (dest src rest : List ℕ) (i : ℕ)
    → length dest ≡ 6
    → length src ≡ 6
    → get_or (dest ++ (src ++ rest)) (12 + i) 0 ≡ get_or rest i 0
get_or_addresses dest src rest i d s =
    let e : 12 + i ≡ length dest + (length src + i) = omega arith in
    ap (λ k. get_or (dest ++ (src ++ rest)) k 0) e
    ∙ get_or-append_right dest (src ++ rest) (length src + i) 0
    ∙ get_or-append_right src rest i 0

same_bytes-append : (xs ys : List ℕ) → same_bytes (length xs) (xs ++ ys) xs ≡ true
unfolding same_bytes
same_bytes-append [] ys = refl
same_bytes-append (x ∷ xs) ys = ground (arith, same_bytes-append xs ys)

ethernet_handle_packet-ipv4 :
    (whole packet : List ℕ) (net : Net) {after : List ℕ} {net' : Net}
    → ltb (length whole) 14 ≡ false
    → same_bytes 6 whole net.mac_address ≡ true
    → bswap16 (get_u16 whole 12) ≡ 0x0800
    → drop 14 whole ≡ packet
    → ipv4_handle_packet packet net ≡ some (after, net')
    → ethernet_handle_packet whole net ≡ some (take 14 whole ++ after, net')
unfolding ethernet_handle_packet
ethernet_handle_packet-ipv4 whole packet net enough to_us type behind handled =
    elim (Bool-cases (same_bytes 6 whole (replicate 6 255))) [
      | inl b ↦ rw (enough, to_us, b, type, behind, handled) refl
      | inr b ↦ rw (enough, to_us, b, type, behind, handled) refl
    ]

-- What a host sends to ask for an echo: a header of 20 bytes, then the message, then the padding of a
-- short frame.
abbrev pub request : ℕ → ℕ → ℕ → ℕ → ℕ → List ℕ → List ℕ → List ℕ
request tos id ttl check src_ip message padding =
    69 ∷ tos ∷ bytes16 (bswap16 (length message + 20))
    ++ bytes16 id
    ++ 0 ∷ 0 ∷ ttl ∷ 1 ∷ bytes16 check
    ++ bytes32 src_ip
    ++ bytes32 sojeb_os_ip
    ++ message
    ++ padding

module _ (src_ip : ℕ) (rest padding : List ℕ) (net : Net) (least : 7 ≤ length rest)
    (most : length rest < 1480) where
  abbrev message : List ℕ
  message = 8 ∷ rest

  icmp_handle-request :
      (header : List ℕ) {net' : Net}
      → length header ≡ 20
      → get_u32 (answered 20 (length message) (header ++ (message ++ padding))) 12 ≡ src_ip
      → ipv4_send src_ip 1 (echo_reply message) net ≡ some net'
      → icmp_handle 20 (length message) (header ++ (message ++ padding)) net
        ≡ some (answered 20 (length message) (header ++ (message ++ padding)), net')
  unfolding icmp_handle
  icmp_handle-request header {net'} twenty from sends =
      let long : ltb (length message) 8 ≡ false = ground arith in
      let inside : ltb (length (message ++ padding)) (length message) ≡ false =
        le→ltb _ _ (omega (arith, length-append rest padding)) in
      let behind : drop 20 (header ++ (message ++ padding)) ≡ message ++ padding =
        ap (λ k. drop k (header ++ (message ++ padding))) (sym twenty)
        ∙ drop-length header (message ++ padding) in
      let reply : echo_reply (take (length message) (message ++ padding)) ≡ echo_reply message =
        ap echo_reply (take-length message padding) in
      rw (behind, long, inside, from, reply, sends, icmp_handle) refl

  ipv4_handle_packet-request :
      (tos id ttl check : ℕ) {net' : Net}
      → src_ip < 2 ^ 32
      → ipv4_send src_ip 1 (echo_reply message) net ≡ some net'
      → ipv4_handle_packet (request tos id ttl check src_ip message padding) net
        ≡ some
            (answered 20 (length message) (request tos id ttl check src_ip message padding), net')
  unfolding ipv4_handle_packet get_u16 get_u32 answered
  ipv4_handle_packet-request tos id ttl check small sends =
      let n = length message + 20 in
      let total : bswap16 (bswap16 n % 256 + 256 * (bswap16 n / 256 % 256)) ≡ n =
        unfold bswap16 in omega arith in
      let short : ltb n 20 ≡ false = ground arith in
      let whole_header : ltb (length (request tos id ttl check src_ip message padding)) 20 ≡ false =
        ground arith in
      let size : n - 20 ≡ length message = omega arith in
      let from : src_ip % 256
            + 256
              * (src_ip / 2 ^ 8 % 256
                  + 256 * (src_ip / 2 ^ 16 % 256 + 256 * (src_ip / 2 ^ 24 % 256)))
          ≡ src_ip =
        omega arith in
      rw (whole_header, total, short, size, ipv4_handle_packet)
        (icmp_handle-request (take 20 (request tos id ttl check src_ip message padding)) refl from
          sends)

  frame_assoc :
      (dest src packet : List ℕ) (type : ℕ)
      → frame dest src type packet ≡ dest ++ (src ++ (bytes16 (bswap16 type) ++ packet))
  frame_assoc dest src packet type = rw (append_assoc (dest ++ src), append_assoc dest) refl

  ethernet_handle_packet-frame :
      (src packet : List ℕ)
      → length net.mac_address ≡ 6
      → length src ≡ 6
      → {after : List ℕ} {net' : Net} → ipv4_handle_packet packet net ≡ some (after, net')
      → (left : List ℕ) × (ethernet_handle_packet (frame net.mac_address src 0x0800 packet) net
          ≡ some (left, net'))
  unfolding get_u16
  ethernet_handle_packet-frame src packet d s {after} handled =
      let mac = net.mac_address in
      let tail = bytes16 (bswap16 0x0800) ++ packet in
      let whole = mac ++ (src ++ tail) in
      let enough : ltb (length whole) 14 ≡ false =
        le→ltb _ _ (omega (arith, d, s, length-append mac (src ++ tail), length-append src tail)) in
      let to_us : same_bytes 6 whole mac ≡ true =
        ap (λ k. same_bytes k whole mac) (sym d) ∙ same_bytes-append mac (src ++ tail) in
      let type : bswap16 (get_u16 whole 12) ≡ 0x0800 =
        unfold bswap16 in
        rw (get_or_addresses mac src tail 0 d s, get_or_addresses mac src tail 1 d s) refl in
      let behind : drop 14 whole ≡ packet =
        drop_add 12 2 whole ∙ ap (drop 2) (drop_addresses mac src tail d s) in
      (
        take 14 whole ++ after,
        ap (λ f. ethernet_handle_packet f net) (frame_assoc mac src packet 0x0800)
            ∙ ethernet_handle_packet-ipv4 whole packet net enough to_us type behind handled,
      )

  -- What the card has been handed for an echo request, when the sender's address is known
  abbrev pub replied : List ℕ → Net → Net
  replied mac after = record after {
    sent =
        after.sent
        ++ frame mac after.mac_address 0x0800 (ipv4_packet src_ip 1 (echo_reply message)) ∷ [];
  }

  ipv4_send-reply :
      (start end : ℕ) (mac : List ℕ)
      → IsValid start end net.blocks
      → length net.mac_address ≡ 6
      → kmalloc (length message + 20) net.blocks ≢ none
      → arp_lookup src_ip net.arp_cache ≡ some mac
      → ipv4_send src_ip 1 (echo_reply message) net ≡ some (replied mac net)
  unfolding routed echo_reply
  ipv4_send-reply start end mac valid six memory known =
      let len : length (echo_reply message) ≡ length message =
        omega (arith, length-drop 4 message) in
      elim (ipv4_send_lem start end src_ip 1 (echo_reply message) net valid six
        (omega (arith, len))) [
          | inl (z, q) ↦ absurd (memory (rw len at z))
          | inr sends ↦ rw (known, routed) at sends
        ]

-- An echo request that reaches the card in a frame for it is answered by one frame, and nothing else
-- changes but the bytes of the request itself: the frame goes to the hardware address that the cache has for the sender, its header's
-- checksum verifies, and the message in it is the request's with type and code 0 and a checksum that
-- verifies. The message has 8 to 1480 bytes, the heap is valid and has room for the packet, and the
-- sender's address is known.
pub ethernet_handle_packet-replied :
    (start end tos id ttl check src_ip : ℕ) (rest padding src mac : List ℕ) (net : Net)
    → IsValid start end net.blocks
    → length net.mac_address ≡ 6
    → length src ≡ 6
    → src_ip < 2 ^ 32
    → All (λ b. b < 256) rest
    → 7 ≤ length rest
    → length rest < 1480
    → kmalloc (length rest + 21) net.blocks ≢ none
    → arp_lookup src_ip net.arp_cache ≡ some mac
    → ((left : List ℕ) × (ethernet_handle_packet
            (frame net.mac_address src 0x0800 (request tos id ttl check src_ip (8 ∷ rest) padding))
            net
          ≡ some (
            left,
            record net {
              sent =
                  net.sent
                  ++ frame mac net.mac_address 0x0800 (ipv4_packet src_ip 1 (echo_reply (8 ∷ rest)))
                    ∷ [];
            },
          )))
      × (net_checksum (take 20 (ipv4_packet src_ip 1 (echo_reply (8 ∷ rest)))) ≡ 0)
      × (net_checksum (echo_reply (8 ∷ rest)) ≡ 0)
      × (take 2 (echo_reply (8 ∷ rest)) ≡ 0 ∷ 0 ∷ [])
      × (drop 4 (echo_reply (8 ∷ rest)) ≡ drop 4 (8 ∷ rest))
ethernet_handle_packet-replied start end tos id ttl check src_ip rest padding src mac net valid six
      six' small bytes least most memory known =
    let (good, type, body) =
      net_checksum-echo_reply (8 ∷ rest) (omega arith, bytes) (omega arith) (omega arith) in
    let size : length rest + 21 ≡ length {A = ℕ} (8 ∷ rest) + 20 = omega arith in
    (
      ethernet_handle_packet-frame src_ip rest padding net least most src
          (request tos id ttl check src_ip (8 ∷ rest) padding) six six'
          (ipv4_handle_packet-request src_ip rest padding net least most tos id ttl check small (
            ipv4_send-reply src_ip rest padding net least most start end mac valid six
              (rw size at memory) known)),
      net_checksum-ipv4_packet src_ip 1 (echo_reply (8 ∷ rest)) (omega arith),
      good,
      type,
      body,
    )
