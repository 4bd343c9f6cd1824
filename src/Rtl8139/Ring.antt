-- ===== src/Rtl8139/Ring.antt =====
-- The frames in the ring are what the network stack is given, in order.
use sojebos.Common.{
  ℕ, ◌+◌, ◌-◌, ◌*◌, ◌/◌, ◌%◌, ◌≤◌, ◌<◌, ◌≡◌, Option, some, none, List, [], ◌∷◌, ◌++◌, length,
  replicate, arith,
}
use sojebos.Net.{Net, ethernet_handle_packet}
use sojebos.Rtl8139.{rx_buf_size, next_offset}

-- A frame as the card writes it: a header of status and length, the frame, its checksum, and bytes up
-- to a multiple of four.
abbrev pub padding : ℕ → ℕ
padding n = (n + 3) / 4 * 4 - n

abbrev pub slot : List ℕ → List ℕ
slot frame =
    let len = length frame + 4 in
    1 ∷ 0 ∷ len % 256 ∷ len / 256 ∷ (frame ++ replicate (4 + padding (length frame)) 0)

abbrev pub slots : List (List ℕ) → List ℕ
slots [] = []
slots (f ∷ fs) = slot f ++ slots fs

abbrev pub IsFrame : List ℕ → Type 0
IsFrame f = length f ≤ 1514

-- What the stack makes of frames one after the other
abbrev pub handle_all : List (List ℕ) → Net → Option Net
handle_all [] net = some net
handle_all (f ∷ fs) net = elim (ethernet_handle_packet f net) [
  | none ↦ none
  | some r ↦ handle_all fs r.1
]

-- The offset stays a multiple of four inside the ring.
pub next_offset-bound :
    (rx_offset packet_len : ℕ)
    → (next_offset rx_offset packet_len < rx_buf_size) × (next_offset rx_offset packet_len % 4 ≡ 0)
unfolding next_offset
next_offset-bound o len = ground arith
