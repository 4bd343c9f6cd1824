-- ===== src/Rtl8139.antt =====
-- src/kernel/drivers/net/rtl8139.c: frames from the card's receive ring, and to its four descriptors.
--
-- The card is hardware: it says how often the command register shows a packet, and it has written the
-- receive buffer. A write to a port is recorded with its value. `frame_place` says where in memory the stack
-- has a frame that it hands to the card. `none`: a length that reaches behind
-- the buffer, or what the network stack leaves undefined.
pub mod Ring
pub mod Start
mod Tests
use sojebos.Common.{
  ℕ, zero, suc, ◌+◌, ◌-◌, ◌*◌, ◌/◌, ◌%◌, ◌^◌, Option, some, none, List, [], ◌∷◌, ◌++◌, length, take,
  drop, ◌==◌, ◌||◌, ltb, leb, if◌then◌else◌, u32, sub32,
}
use sojebos.Disk.Fields.{get_u16}
use sojebos.Net.{Net, ethernet_handle_packet}

abbrev pub rx_buf_size : ℕ
rx_buf_size = 8192

abbrev pub tx_desc_count : ℕ
tx_desc_count = 4

pub record Card : Type 0 where
  pub io_base : ℕ
  pub rx_buffer : List ℕ
  pub rx_offset : ℕ
  pub current_tx_descriptor : ℕ
  pub written : List (ℕ × ℕ)
  pub frame_place : List ℕ → ℕ

abbrev pub out_port : ℕ → ℕ → Card → Card
out_port port value card = record card { written = card.written ++ (port, value) ∷ [] }

-- Where the packet behind this one begins
unfoldable pub next_offset : ℕ → ℕ → ℕ
next_offset rx_offset packet_len =
    let aligned = (rx_offset + packet_len + 4 + 3) / 4 * 4 in
    if leb rx_buf_size aligned then aligned % rx_buf_size else aligned

-- The ring's variables after a packet, and the write to CAPR, of 16 bits
unfoldable pub advance : ℕ → Card → Card
advance packet_len card =
    let offset = next_offset card.rx_offset packet_len in
    out_port (u32 (card.io_base + 0x38)) (sub32 offset 16 % 2 ^ 16)
      (record card { rx_offset = offset })

-- `outw(io_base + 0x3E, 0x01)`
abbrev pub acknowledge : Card → Card
acknowledge card = out_port (u32 (card.io_base + 0x3E)) 1 card

-- The address, the length, which is 60 at least, and the acknowledgement; the wait between is the
-- card's.
unfoldable pub rtl8139_send_packet : ℕ → ℕ → Card → Card
rtl8139_send_packet address len card =
    let d = card.current_tx_descriptor in
    let transmit_size = if ltb len 60 then 60 else len in
    let sent = out_port (u32 (card.io_base + 0x3E)) (2 ^ (d + 2)) (
      out_port (u32 (card.io_base + 0x10 + d * 4)) transmit_size
        (out_port (u32 (card.io_base + 0x20 + d * 4)) address card)) in
    record sent { current_tx_descriptor = (d + 1) % tx_desc_count }

-- The frames that the stack hands to the card in a call, one after the other
unfoldable pub transmit : List (List ℕ) → Card → Card
transmit [] card = card
transmit (f ∷ fs) card = transmit fs (rtl8139_send_packet (card.frame_place f) (length f) card)

-- `bytes` over those from `offset` on: the stack works on the receive buffer itself.
unfoldable pub put_frame : ℕ → List ℕ → List ℕ → List ℕ
put_frame offset bytes buffer = take offset buffer ++ (bytes ++ drop (offset + length bytes) buffer)

-- The frame goes to the stack without its checksum of four bytes. What the stack sends meanwhile is
-- what it has handed to the card more than before.
unfoldable pub take_frame : ℕ → List ℕ → Card → Net → Option (Card × Net)
take_frame packet_len header card net =
    elim (ethernet_handle_packet (take (packet_len - 4) (drop 4 header)) net) [
      | none ↦ none
      | some (left, net') ↦
          let worked_on : Card = record card {
            rx_buffer = put_frame (card.rx_offset + 4) left card.rx_buffer;
          } in
          let sent = transmit (drop (length net.sent) net'.sent) worked_on in
          some (acknowledge (advance packet_len sent), net')
    ]

-- The body of the loop
unfoldable pub receive : Card → Net → Option (Card × Net)
receive card net =
    let header = drop card.rx_offset card.rx_buffer in
    let packet_len = get_u16 header 2 in
    let taken = take_frame packet_len header card net in
    if get_u16 header 0 % 2 == 1
    then if ltb packet_len 4 || ltb (length header) (4 + packet_len) then none else taken
    else some (acknowledge card, net)

-- `n` rounds of the loop
unfoldable pub rtl8139_poll : ℕ → Card → Net → Option (Card × Net)
rtl8139_poll zero card net = some (card, net)
rtl8139_poll (suc n) card net = elim (receive card net) [
  | none ↦ none
  | some r ↦ rtl8139_poll n r.0 r.1
]
