-- ===== src/Kernel/Banner.antt =====
-- The texts that kernel.c prints.
use sojebos.Common.{ℕ, List, [], ◌∷◌}

abbrev pub welcome : List ℕ
welcome =
    b'\n' ∷ b' ' ∷ b' ' ∷ b' ' ∷ b'_' ∷ b'_' ∷ b'_' ∷ b'_' ∷ b'_' ∷ b' ' ∷ b' ' ∷ b' ' ∷ b'_' ∷ b'_'
    ∷ b'_' ∷ b'_' ∷ b' ' ∷ b' ' ∷ b' ' ∷ b' ' ∷ b' ' ∷ b' ' ∷ b' ' ∷ b'_' ∷ b' ' ∷ b' ' ∷ b'_'
    ∷ b'_' ∷ b'_' ∷ b'_' ∷ b'_' ∷ b'_' ∷ b' ' ∷ b'_' ∷ b'_' ∷ b'_' ∷ b'_' ∷ b' ' ∷ b' ' ∷ b' '
    ∷ b'_' ∷ b'_' ∷ b'_' ∷ b'_' ∷ b' ' ∷ b' ' ∷ b' ' ∷ b'_' ∷ b'_' ∷ b'_' ∷ b'_' ∷ b'_' ∷ b' '
    ∷ b'\n' ∷ b' ' ∷ b' ' ∷ b'/' ∷ b' ' ∷ b'_' ∷ b'_' ∷ b'_' ∷ b'_' ∷ b'|' ∷ b' ' ∷ b'/' ∷ b' '
    ∷ b'_' ∷ b'_' ∷ b' ' ∷ 92 ∷ b' ' ∷ b' ' ∷ b' ' ∷ b' ' ∷ b' ' ∷ b'|' ∷ b' ' ∷ b'|' ∷ b'|' ∷ b' '
    ∷ b' ' ∷ b'_' ∷ b'_' ∷ b'_' ∷ b'_' ∷ b'|' ∷ b' ' ∷ b' ' ∷ b'_' ∷ b' ' ∷ 92 ∷ b' ' ∷ b'/' ∷ b' '
    ∷ b'_' ∷ b'_' ∷ b' ' ∷ 92 ∷ b' ' ∷ b'/' ∷ b' ' ∷ b'_' ∷ b'_' ∷ b'_' ∷ b'_' ∷ b'|' ∷ b'\n' ∷ b' '
    ∷ b'|' ∷ b' ' ∷ b'(' ∷ b'_' ∷ b'_' ∷ b'_' ∷ b' ' ∷ b' ' ∷ b'|' ∷ b' ' ∷ b'|' ∷ b' ' ∷ b' '
    ∷ b'|' ∷ b' ' ∷ b'|' ∷ b' ' ∷ b' ' ∷ b' ' ∷ b' ' ∷ b'|' ∷ b' ' ∷ b'|' ∷ b'|' ∷ b' ' ∷ b'|'
    ∷ b'_' ∷ b'_' ∷ b' ' ∷ b' ' ∷ b'|' ∷ b' ' ∷ b'|' ∷ b'_' ∷ b')' ∷ b' ' ∷ b'|' ∷ b' ' ∷ b'|'
    ∷ b' ' ∷ b' ' ∷ b'|' ∷ b' ' ∷ b'|' ∷ b' ' ∷ b'(' ∷ b'_' ∷ b'_' ∷ b'_' ∷ b' ' ∷ b' ' ∷ b'\n'
    ∷ b' ' ∷ b' ' ∷ 92 ∷ b'_' ∷ b'_' ∷ b'_' ∷ b' ' ∷ 92 ∷ b' ' ∷ b'|' ∷ b' ' ∷ b'|' ∷ b' ' ∷ b' '
    ∷ b'|' ∷ b' ' ∷ b'|' ∷ b' ' ∷ b'_' ∷ b' ' ∷ b' ' ∷ b'|' ∷ b' ' ∷ b'|' ∷ b'|' ∷ b' ' ∷ b' '
    ∷ b'_' ∷ b'_' ∷ b'|' ∷ b' ' ∷ b'|' ∷ b' ' ∷ b' ' ∷ b'_' ∷ b' ' ∷ b'<' ∷ b'|' ∷ b' ' ∷ b'|'
    ∷ b' ' ∷ b' ' ∷ b'|' ∷ b' ' ∷ b'|' ∷ 92 ∷ b'_' ∷ b'_' ∷ b'_' ∷ b' ' ∷ 92 ∷ b' ' ∷ b'\n' ∷ b' '
    ∷ b' ' ∷ b'_' ∷ b'_' ∷ b'_' ∷ b'_' ∷ b')' ∷ b' ' ∷ b'|' ∷ b'|' ∷ b' ' ∷ b'|' ∷ b'_' ∷ b'_'
    ∷ b'|' ∷ b' ' ∷ b'|' ∷ b'|' ∷ b' ' ∷ b'|' ∷ b'_' ∷ b'|' ∷ b' ' ∷ b'|' ∷ b'|' ∷ b' ' ∷ b'|'
    ∷ b'_' ∷ b'_' ∷ b'_' ∷ b'_' ∷ b'|' ∷ b' ' ∷ b'|' ∷ b'_' ∷ b')' ∷ b' ' ∷ b'|' ∷ b' ' ∷ b'|'
    ∷ b'_' ∷ b'_' ∷ b'|' ∷ b' ' ∷ b'|' ∷ b'_' ∷ b'_' ∷ b'_' ∷ b'_' ∷ b')' ∷ b' ' ∷ b'|' ∷ b'\n'
    ∷ b' ' ∷ b'|' ∷ b'_' ∷ b'_' ∷ b'_' ∷ b'_' ∷ b'_' ∷ b'/' ∷ b' ' ∷ b' ' ∷ 92 ∷ b'_' ∷ b'_' ∷ b'_'
    ∷ b'_' ∷ b'/' ∷ b' ' ∷ b' ' ∷ 92 ∷ b'_' ∷ b'_' ∷ b'_' ∷ b'/' ∷ b' ' ∷ b'|' ∷ b'_' ∷ b'_' ∷ b'_'
    ∷ b'_' ∷ b'_' ∷ b'_' ∷ b'|' ∷ b'_' ∷ b'_' ∷ b'_' ∷ b'_' ∷ b'/' ∷ b' ' ∷ 92 ∷ b'_' ∷ b'_' ∷ b'_'
    ∷ b'_' ∷ b'/' ∷ b'|' ∷ b'_' ∷ b'_' ∷ b'_' ∷ b'_' ∷ b'_' ∷ b'/' ∷ b' ' ∷ b'\n' ∷ b'\n' ∷ b'W'
    ∷ b'e' ∷ b'l' ∷ b'c' ∷ b'o' ∷ b'm' ∷ b'e' ∷ b' ' ∷ b't' ∷ b'o' ∷ b' ' ∷ b'S' ∷ b'o' ∷ b'j'
    ∷ b'e' ∷ b'b' ∷ b'O' ∷ b'S' ∷ b'\n' ∷ []

abbrev pub network_found : List ℕ
network_found =
    b'N' ∷ b'e' ∷ b't' ∷ b'w' ∷ b'o' ∷ b'r' ∷ b'k' ∷ b':' ∷ b' ' ∷ b'R' ∷ b'T' ∷ b'L' ∷ b'8' ∷ b'1'
    ∷ b'3' ∷ b'9' ∷ b' ' ∷ b'f' ∷ b'o' ∷ b'u' ∷ b'n' ∷ b'd' ∷ b' ' ∷ b'a' ∷ b'n' ∷ b'd' ∷ b' '
    ∷ b'i' ∷ b'n' ∷ b'i' ∷ b't' ∷ b'i' ∷ b'a' ∷ b'l' ∷ b'i' ∷ b'z' ∷ b'e' ∷ b'd' ∷ b'.' ∷ b'\n' ∷ []

abbrev pub no_network : List ℕ
no_network =
    b'N' ∷ b'e' ∷ b't' ∷ b'w' ∷ b'o' ∷ b'r' ∷ b'k' ∷ b':' ∷ b' ' ∷ b'N' ∷ b'o' ∷ b' ' ∷ b'R' ∷ b'T'
    ∷ b'L' ∷ b'8' ∷ b'1' ∷ b'3' ∷ b'9' ∷ b' ' ∷ b'c' ∷ b'a' ∷ b'r' ∷ b'd' ∷ b' ' ∷ b'f' ∷ b'o'
    ∷ b'u' ∷ b'n' ∷ b'd' ∷ b'.' ∷ b'\n' ∷ []
