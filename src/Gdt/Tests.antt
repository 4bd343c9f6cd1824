-- ===== src/Gdt/Tests.antt =====
-- Examples: a table of zeros.

use sojebos.Gdt.{GdtEntry}

abbrev pub zeros : GdtEntry
zeros = record {
  limit_low = 0;
  base_low = 0;
  base_middle = 0;
  access = 0;
  granularity = 0;
  base_high = 0;
}
