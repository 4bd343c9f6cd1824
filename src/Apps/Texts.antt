-- ===== src/Apps/Texts.antt =====
-- The texts of the programs.
use sojebos.Common.{ℕ, List, [], ◌∷◌}

abbrev pub cat_usage : List ℕ
cat_usage =
    b'U' ∷ b's' ∷ b'a' ∷ b'g' ∷ b'e' ∷ b':' ∷ b' ' ∷ b'c' ∷ b'a' ∷ b't' ∷ b' ' ∷ b'<' ∷ b'f' ∷ b'i'
    ∷ b'l' ∷ b'e' ∷ b'n' ∷ b'a' ∷ b'm' ∷ b'e' ∷ b'>' ∷ b'\n' ∷ []

abbrev pub write_usage : List ℕ
write_usage =
    b'U' ∷ b's' ∷ b'a' ∷ b'g' ∷ b'e' ∷ b':' ∷ b' ' ∷ b'w' ∷ b'r' ∷ b'i' ∷ b't' ∷ b'e' ∷ b' ' ∷ b'<'
    ∷ b'f' ∷ b'i' ∷ b'l' ∷ b'e' ∷ b'n' ∷ b'a' ∷ b'm' ∷ b'e' ∷ b'>' ∷ b' ' ∷ b'<' ∷ b'c' ∷ b'o'
    ∷ b'n' ∷ b't' ∷ b'e' ∷ b'n' ∷ b't' ∷ b'>' ∷ b'\n' ∷ []

abbrev pub written : List ℕ
written =
    b'F' ∷ b'i' ∷ b'l' ∷ b'e' ∷ b' ' ∷ b'w' ∷ b'r' ∷ b'i' ∷ b't' ∷ b't' ∷ b'e' ∷ b'n' ∷ b' ' ∷ b's'
    ∷ b'u' ∷ b'c' ∷ b'c' ∷ b'e' ∷ b's' ∷ b's' ∷ b'f' ∷ b'u' ∷ b'l' ∷ b'l' ∷ b'y' ∷ b'!' ∷ b'\n' ∷ []

abbrev pub rm_usage : List ℕ
rm_usage =
    b'U' ∷ b's' ∷ b'a' ∷ b'g' ∷ b'e' ∷ b':' ∷ b' ' ∷ b'r' ∷ b'm' ∷ b' ' ∷ b'<' ∷ b'f' ∷ b'i' ∷ b'l'
    ∷ b'e' ∷ b'n' ∷ b'a' ∷ b'm' ∷ b'e' ∷ b'>' ∷ b'\n' ∷ []

abbrev pub removed : List ℕ
removed =
    b'F' ∷ b'i' ∷ b'l' ∷ b'e' ∷ b' ' ∷ b'd' ∷ b'e' ∷ b'l' ∷ b'e' ∷ b't' ∷ b'e' ∷ b'd' ∷ b' ' ∷ b's'
    ∷ b'u' ∷ b'c' ∷ b'c' ∷ b'e' ∷ b's' ∷ b's' ∷ b'f' ∷ b'u' ∷ b'l' ∷ b'l' ∷ b'y' ∷ b'!' ∷ b'\n' ∷ []

abbrev pub mkdir_usage : List ℕ
mkdir_usage =
    b'U' ∷ b's' ∷ b'a' ∷ b'g' ∷ b'e' ∷ b':' ∷ b' ' ∷ b'm' ∷ b'k' ∷ b'd' ∷ b'i' ∷ b'r' ∷ b' ' ∷ b'<'
    ∷ b'd' ∷ b'i' ∷ b'r' ∷ b'n' ∷ b'a' ∷ b'm' ∷ b'e' ∷ b'>' ∷ b'\n' ∷ []

abbrev pub rmdir_usage : List ℕ
rmdir_usage =
    b'U' ∷ b's' ∷ b'a' ∷ b'g' ∷ b'e' ∷ b':' ∷ b' ' ∷ b'r' ∷ b'm' ∷ b'd' ∷ b'i' ∷ b'r' ∷ b' ' ∷ b'<'
    ∷ b'd' ∷ b'i' ∷ b'r' ∷ b'n' ∷ b'a' ∷ b'm' ∷ b'e' ∷ b'>' ∷ b'\n' ∷ []

abbrev pub cd_usage : List ℕ
cd_usage =
    b'U' ∷ b's' ∷ b'a' ∷ b'g' ∷ b'e' ∷ b':' ∷ b' ' ∷ b'c' ∷ b'd' ∷ b' ' ∷ b'<' ∷ b'p' ∷ b'a' ∷ b't'
    ∷ b'h' ∷ b'>' ∷ b'\n' ∷ []

abbrev pub hello_title : List ℕ
hello_title = b'H' ∷ b'e' ∷ b'l' ∷ b'l' ∷ b'o' ∷ b' ' ∷ b'A' ∷ b'p' ∷ b'p' ∷ b'\n' ∷ []

abbrev pub hello_help : List ℕ
hello_help =
    b'T' ∷ b'y' ∷ b'p' ∷ b'e' ∷ b' ' ∷ b's' ∷ b'o' ∷ b'm' ∷ b'e' ∷ b't' ∷ b'h' ∷ b'i' ∷ b'n' ∷ b'g'
    ∷ b' ' ∷ b'o' ∷ b'r' ∷ b' ' ∷ 39 ∷ b'e' ∷ b'x' ∷ b'i' ∷ b't' ∷ 39 ∷ b' ' ∷ b't' ∷ b'o' ∷ b' '
    ∷ b'l' ∷ b'e' ∷ b'a' ∷ b'v' ∷ b'e' ∷ b'.' ∷ b'\n' ∷ []

abbrev pub you_typed : List ℕ
you_typed = b'Y' ∷ b'o' ∷ b'u' ∷ b' ' ∷ b't' ∷ b'y' ∷ b'p' ∷ b'e' ∷ b'd' ∷ b':' ∷ b' ' ∷ []

abbrev pub line_end : List ℕ
line_end = b'\n' ∷ []

abbrev pub calculator_title : List ℕ
calculator_title =
    b'C' ∷ b'a' ∷ b'l' ∷ b'c' ∷ b'u' ∷ b'l' ∷ b'a' ∷ b't' ∷ b'o' ∷ b'r' ∷ b' ' ∷ b'A' ∷ b'p' ∷ b'p'
    ∷ b'\n' ∷ []

abbrev pub calculator_help : List ℕ
calculator_help =
    b'E' ∷ b'x' ∷ b'a' ∷ b'm' ∷ b'p' ∷ b'l' ∷ b'e' ∷ b':' ∷ b' ' ∷ b'1' ∷ b'2' ∷ b'+' ∷ b'5' ∷ b'\n'
    ∷ b'\n' ∷ []

abbrev pub ping_usage : List ℕ
ping_usage =
    b'U' ∷ b's' ∷ b'a' ∷ b'g' ∷ b'e' ∷ b':' ∷ b' ' ∷ b'p' ∷ b'i' ∷ b'n' ∷ b'g' ∷ b' ' ∷ b'<' ∷ b'd'
    ∷ b'e' ∷ b's' ∷ b't' ∷ b'_' ∷ b'i' ∷ b'p' ∷ b'>' ∷ b'\n' ∷ []

abbrev pub pinging : List ℕ
pinging =
    b'P' ∷ b'I' ∷ b'N' ∷ b'G' ∷ b'i' ∷ b'n' ∷ b'g' ∷ b' ' ∷ b'%' ∷ b's' ∷ b'.' ∷ b'.' ∷ b'.' ∷ b'\n'
    ∷ []

abbrev pub ping_payload : List ℕ
ping_payload =
    b'S' ∷ b'o' ∷ b'j' ∷ b'e' ∷ b'b' ∷ b'O' ∷ b'S' ∷ b' ' ∷ b'P' ∷ b'i' ∷ b'n' ∷ b'g' ∷ []

abbrev pub packet_sent : List ℕ
packet_sent =
    b'P' ∷ b'a' ∷ b'c' ∷ b'k' ∷ b'e' ∷ b't' ∷ b' ' ∷ b's' ∷ b'e' ∷ b'n' ∷ b't' ∷ b'.' ∷ b' ' ∷ b'W'
    ∷ b'a' ∷ b'i' ∷ b't' ∷ b'i' ∷ b'n' ∷ b'g' ∷ b' ' ∷ b'f' ∷ b'o' ∷ b'r' ∷ b' ' ∷ b'r' ∷ b'e'
    ∷ b's' ∷ b'p' ∷ b'o' ∷ b'n' ∷ b's' ∷ b'e' ∷ b'.' ∷ b'.' ∷ b'.' ∷ b'\n' ∷ []

abbrev pub prompt : List ℕ
prompt = b'>' ∷ b' ' ∷ []

abbrev pub farewell : List ℕ
farewell =
    b'E' ∷ b'x' ∷ b'i' ∷ b't' ∷ b'i' ∷ b'n' ∷ b'g' ∷ b' ' ∷ b'S' ∷ b'o' ∷ b'j' ∷ b'e' ∷ b'b' ∷ b'O'
    ∷ b'S' ∷ b' ' ∷ b's' ∷ b'h' ∷ b'e' ∷ b'l' ∷ b'l' ∷ b'.' ∷ b'.' ∷ b'.' ∷ b'\n' ∷ []

abbrev pub unknown_command : List ℕ
unknown_command =
    b'C' ∷ b'o' ∷ b'm' ∷ b'm' ∷ b'a' ∷ b'n' ∷ b'd' ∷ b' ' ∷ b'o' ∷ b'r' ∷ b' ' ∷ b'f' ∷ b'i' ∷ b'l'
    ∷ b'e' ∷ b' ' ∷ b'n' ∷ b'o' ∷ b't' ∷ b' ' ∷ b'f' ∷ b'o' ∷ b'u' ∷ b'n' ∷ b'd' ∷ b'!' ∷ b'\n' ∷ []

abbrev pub exit_word : List ℕ
exit_word = b'e' ∷ b'x' ∷ b'i' ∷ b't' ∷ []

abbrev pub point_format : List ℕ
point_format =
    b'P' ∷ b'o' ∷ b'i' ∷ b'n' ∷ b't' ∷ b' ' ∷ b'%' ∷ b'z' ∷ b'u' ∷ b':' ∷ b' ' ∷ b'x' ∷ b'=' ∷ b'%'
    ∷ b'd' ∷ b',' ∷ b' ' ∷ b'y' ∷ b'=' ∷ b'%' ∷ b'd' ∷ b'\n' ∷ []
