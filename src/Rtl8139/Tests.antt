-- ===== src/Rtl8139/Tests.antt =====
-- Examples: two short frames in the ring.
use sojebos.Common.{ℕ, List, [], ◌∷◌, ◌++◌, replicate}
use sojebos.Net.{Net}
use sojebos.Rtl8139.{Card}
use sojebos.Rtl8139.Ring.{slots}

abbrev quiet : Net
quiet = record {
  arp_cache = [];
  blocks = [];
  mac_address = 82 ∷ 84 ∷ 0 ∷ 18 ∷ 52 ∷ 86 ∷ [];
  sent = [];
}

abbrev frames : List (List ℕ)
frames = (1 ∷ 2 ∷ 3 ∷ []) ∷ replicate 14 7 ∷ []

abbrev card : Card
card = record {
  io_base = 0xc000;
  rx_buffer = replicate 8 0 ++ (slots frames ++ replicate 100 0);
  rx_offset = 8;
  current_tx_descriptor = 0;
  written = [];
  frame_place = λ f. 0x300000;
}
