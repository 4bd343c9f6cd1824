-- ===== src/Apps/Ping.antt =====
-- src/apps/ping.c: an echo request, and two thousand polls of the card.
use sojebos.Apps.{World, show, net_of, with_sent, polls}
use sojebos.Apps.Coreutils.{argument}
use sojebos.Apps.Texts.{ping_usage, pinging, ping_payload, packet_sent}
use sojebos.Common.{ℕ, Option, some, none, List, [], ◌∷◌, ◌++◌, length, ltb, if◌then◌else◌}
use sojebos.Console.Printf.{text, console_printf}
use sojebos.Heap.{kmalloc}
use sojebos.Net.{Net, bswap16, bytes16, net_checksum, ipv4_send, release}
use sojebos.Strings.{parse_ip}

-- `struct icmp_header` and the payload behind it, with the checksum given
abbrev pub ping_bytes : ℕ → List ℕ
ping_bytes checksum =
    8 ∷ 0 ∷ bytes16 checksum ++ bytes16 (bswap16 1234) ++ bytes16 (bswap16 1) ++ ping_payload

unfoldable pub ping_message : List ℕ
ping_message = ping_bytes (net_checksum (ping_bytes 0))

-- From `kmalloc` to `kfree`. The result of `kmalloc` is not tested: `none` is a write at NULL.
unfoldable pub send_ping : ℕ → Net → Option Net
send_ping dest_ip net = elim (kmalloc (length ping_message) net.blocks) [
  | none ↦ none
  | some (temp, bs) ↦ elim (ipv4_send dest_ip 1 ping_message (record net { blocks = bs })) [
    | none ↦ none
    | some after ↦ release temp after
  ]
]

unfoldable pub command_ping : List (List ℕ) → World → Option World
command_ping argv w =
    let asked : Option World =
      elim (console_printf pinging (text (argument argv 1) ∷ []) w.console) [
        | none ↦ none
        | some con ↦ elim (send_ping (parse_ip (argument argv 1)) (net_of w)) [
          | none ↦ none
          | some net ↦ polls 2000 (show packet_sent (with_sent net (record w { console = con })))
        ]
      ] in
    if ltb (length argv) 2 then some (show ping_usage w) else asked
