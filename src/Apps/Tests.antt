-- ===== src/Apps/Tests.antt =====
-- Examples: a small machine, and the request that `ping` sends.
use sojebos.Apps.{World}
use sojebos.Common.{ℕ, true, List, [], ◌∷◌}
use sojebos.Fat32.Tests.{small, blank}
use sojebos.Heap.{kheap_init}
use sojebos.Net.{Net}

-- A machine with an empty keyboard and a blank disk
abbrev pub desk : List ℕ → World
desk keys = record {
  console = record { cursor = 0; video = [] };
  input = keys;
  system = record {
    machine = record {
      blocks = kheap_init 0x300000 4096;
      files = record { fs = small; current_dir_cluster = 2; disk = blank; console = [] };
    };
    paging = record { frames = []; directory = []; memory = λ q. q };
    user = λ q. q;
  };
  net = record { arp_cache = []; blocks = []; mac_address = []; sent = [] };
  card = record {
    io_base = 0;
    rx_buffer = [];
    rx_offset = 0;
    current_tx_descriptor = 0;
    written = [];
    frame_place = λ f. 0x300000;
  };
  arrivals = [];
}

abbrev host : Net
host = record {
  arp_cache = record { ip = 7; mac = 1 ∷ 2 ∷ 3 ∷ 4 ∷ 5 ∷ 6 ∷ []; assigned = true } ∷ [];
  blocks = kheap_init 0x300000 4096;
  mac_address = 82 ∷ 84 ∷ 0 ∷ 18 ∷ 52 ∷ 86 ∷ [];
  sent = [];
}
