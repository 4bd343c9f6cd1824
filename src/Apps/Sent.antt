-- ===== src/Apps/Sent.antt =====
-- What `ping` sends, and that it gives its memory back.
use sojebos.Net.{Net}
