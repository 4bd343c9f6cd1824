-- ===== src/Net/Kept.antt =====
-- The stack leaves a frame as long as it was.
use mathlib.Core.Option.{some_inj, none-ne-some}
use sojebos.Common.{
  ℕ, ◌-◌, ◌*◌, ◌%◌, ◌≤◌, ◌≡◌, sym, ap, ◌∙◌, inl, inr, arith, true, false, Bool, Option, some, none,
  List, ◌++◌, length, length-append, length-take, length-drop, take, drop, get_or, ltb, ◌==◌,
  Bool-cases, Option-cases, if◌then◌else◌, not, ◌&&◌, replicate,
}
use sojebos.Disk.Fields.{get_u16, get_u32}
use sojebos.Net.{
  Net, bswap16, sojeb_os_ip, same_bytes, echo_reply, answered, ipv4_send, icmp_handle,
  ipv4_handle_packet, arp_handle_packet, ethernet_handle_packet,
}

-- A result that has the frame, or one as long
abbrev IsLong : ℕ → Option (List ℕ × Net) → Type 0
IsLong n r = (left : List ℕ) (net : Net) → r ≡ some (left, net) → length left ≡ n

some-IsLong : (f : List ℕ) (net : Net) → IsLong (length f) (some (f, net))
some-IsLong f net left net' e = ap (λ r. length r.0) (sym (some_inj.0 e))

none-IsLong : (n : ℕ) → IsLong n none
none-IsLong n left net e = absurd (none-ne-some _ e)

if-IsLong :
    (b : Bool) (n : ℕ) (x y : Option (List ℕ × Net))
    → IsLong n x
    → IsLong n y
    → IsLong n (if b then x else y)
if-IsLong true n x y p q = p
if-IsLong false n x y p q = q

length-answered :
    (h len : ℕ) (packet : List ℕ)
    → 8 ≤ len
    → len ≤ length (drop h packet)
    → length (answered h len packet) ≡ length packet
unfolding answered echo_reply
length-answered h len packet least inside =
    let icmp = drop h packet in
    omega (
      arith,
      least,
      inside,
      length-append (take h packet) (echo_reply (take len icmp) ++ drop len icmp),
      length-append (echo_reply (take len icmp)) (drop len icmp),
      length-take h packet,
      length-drop h packet,
      length-take len icmp,
      length-drop len icmp,
      length-drop 4 (take len icmp),
    )

length-icmp_handle :
    (h len : ℕ) (packet : List ℕ) (net : Net)
    → IsLong (length packet) (icmp_handle h len packet net)
unfolding icmp_handle
length-icmp_handle h len packet net =
    let icmp = drop h packet in
    elim (Bool-cases (ltb len 8)) [
      | inl e ↦ rw e (some-IsLong packet net)
      | inr e ↦ elim (Bool-cases (get_or icmp 0 0 == 8)) [
        | inr f ↦ rw (e, f) (some-IsLong packet net)
        | inl f ↦ elim (Bool-cases (ltb (length icmp) len)) [
          | inl g ↦ rw (e, f, g) (none-IsLong (length packet))
          | inr g ↦
              let least : 8 ≤ len = ground arith in
              let inside : len ≤ length icmp = ground arith in
              let same = length-answered h len packet least inside in
              elim (Option-cases (
                ipv4_send (get_u32 (answered h len packet) 12) 1 (echo_reply (take len icmp))
                  net)) [
                    | inl s ↦ rw (e, f, g, s) (none-IsLong (length packet))
                    | inr (net', s) ↦
                        rw (e, f, g, s)
                          (λ left net q. some-IsLong (answered h len packet) net' left net q ∙ same)
                  ]
        ]
      ]
    ]

length-ipv4_handle_packet :
    (packet : List ℕ) (net : Net) → IsLong (length packet) (ipv4_handle_packet packet net)
unfolding ipv4_handle_packet
length-ipv4_handle_packet packet net =
    let same = some-IsLong packet net in
    let n = length packet in
    let header_len = get_or packet 0 0 % 16 * 4 in
    let total_len = bswap16 (get_u16 packet 2) in
    let dest_ip = get_u32 packet 16 in
    if-IsLong (ltb (length packet) 20) n _ _ same (
      if-IsLong (not (dest_ip == sojeb_os_ip) && not (dest_ip == 0xFFFFFFFF)) n _ _ same (
        if-IsLong (ltb total_len header_len) n _ _ same (
          if-IsLong (get_or packet 9 0 == 1) n _ _
            (length-icmp_handle header_len (total_len - header_len) packet net) same)))

-- What the stack leaves of a frame is as long as the frame.
pub length-ethernet_handle_packet :
    (f : List ℕ) (net : Net) → IsLong (length f) (ethernet_handle_packet f net)
unfolding ethernet_handle_packet
length-ethernet_handle_packet f net = elim (Bool-cases (ltb (length f) 14)) [
  | inl e ↦ rw e (some-IsLong f net)
  | inr e ↦
      let long : 14 ≤ length f = ground arith in
      let same = some-IsLong f net in
      rw e (
        if-IsLong (not (same_bytes 6 f (replicate 6 255)) && not (same_bytes 6 f net.mac_address))
          (length f) _ _ same
          (if-IsLong (bswap16 (get_u16 f 12) == 0x0800) (length f)
            (elim (ipv4_handle_packet (drop 14 f) net) [
              | none ↦ none
              | some r ↦ some (take 14 f ++ r.0, r.1)
            ])
            _
            (elim (Option-cases (ipv4_handle_packet (drop 14 f) net)) [
              | inl k ↦ rw k (none-IsLong (length f))
              | inr ((left, net'), k) ↦
                  let rest = length-ipv4_handle_packet (drop 14 f) net left net' k in
                  let whole : length (take 14 f ++ left) ≡ length f = omega (
                    arith,
                    long,
                    rest,
                    length-append (take 14 f) left,
                    length-take 14 f,
                    length-drop 14 f,
                  ) in
                  rw k (λ r n q. some-IsLong (take 14 f ++ left) net' r n q ∙ whole)
            ])
            (if-IsLong (bswap16 (get_u16 f 12) == 0x0806) (length f)
              (elim (arp_handle_packet (drop 14 f) net) [
                | none ↦ none
                | some net' ↦ some (f, net')
              ])
              _
              (elim (Option-cases (arp_handle_packet (drop 14 f) net)) [
                | inl k ↦ rw k (none-IsLong (length f))
                | inr (net', k) ↦ rw k (some-IsLong f net')
              ])
              same)))
]
