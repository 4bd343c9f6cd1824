-- ===== src/Fat32/Texts.antt =====
-- The texts that fat32.c prints.
use sojebos.Common.{ℕ, List, [], ◌∷◌}
use sojebos.Fat32.Directory.{Messages}

abbrev pub not_found : List ℕ
not_found =
    b'F' ∷ b'i' ∷ b'l' ∷ b'e' ∷ b' ' ∷ b'n' ∷ b'o' ∷ b't' ∷ b' ' ∷ b'f' ∷ b'o' ∷ b'u' ∷ b'n' ∷ b'd'
    ∷ b'.' ∷ b'\n' ∷ []

abbrev pub newline : List ℕ
newline = b'\n' ∷ []

abbrev pub scanning : List ℕ
scanning =
    b'S' ∷ b'c' ∷ b'a' ∷ b'n' ∷ b'n' ∷ b'i' ∷ b'n' ∷ b'g' ∷ b' ' ∷ b'D' ∷ b'i' ∷ b's' ∷ b'k' ∷ b'.'
    ∷ b'.' ∷ b'.' ∷ b' ' ∷ []

abbrev pub free_clusters : List ℕ
free_clusters =
    b'\n' ∷ b'F' ∷ b'r' ∷ b'e' ∷ b'e' ∷ b' ' ∷ b'C' ∷ b'l' ∷ b'u' ∷ b's' ∷ b't' ∷ b'e' ∷ b'r' ∷ b's'
    ∷ b':' ∷ b' ' ∷ []

abbrev pub free_space : List ℕ
free_space =
    b'\n' ∷ b'F' ∷ b'r' ∷ b'e' ∷ b'e' ∷ b' ' ∷ b'S' ∷ b'p' ∷ b'a' ∷ b'c' ∷ b'e' ∷ b':' ∷ b' ' ∷ []

abbrev pub kilobytes : List ℕ
kilobytes = b' ' ∷ b'K' ∷ b'B' ∷ b'\n' ∷ []

abbrev pub no_such_directory : List ℕ
no_such_directory =
    b'c' ∷ b'd' ∷ b':' ∷ b' ' ∷ b'N' ∷ b'o' ∷ b' ' ∷ b's' ∷ b'u' ∷ b'c' ∷ b'h' ∷ b' ' ∷ b'f' ∷ b'i'
    ∷ b'l' ∷ b'e' ∷ b' ' ∷ b'o' ∷ b'r' ∷ b' ' ∷ b'd' ∷ b'i' ∷ b'r' ∷ b'e' ∷ b'c' ∷ b't' ∷ b'o'
    ∷ b'r' ∷ b'y' ∷ b'.' ∷ b'\n' ∷ []

abbrev pub corrupted : List ℕ
corrupted =
    b'E' ∷ b'r' ∷ b'r' ∷ b'o' ∷ b'r' ∷ b':' ∷ b' ' ∷ b'D' ∷ b'i' ∷ b'r' ∷ b'e' ∷ b'c' ∷ b't' ∷ b'o'
    ∷ b'r' ∷ b'y' ∷ b' ' ∷ b's' ∷ b't' ∷ b'r' ∷ b'u' ∷ b'c' ∷ b't' ∷ b'u' ∷ b'r' ∷ b'e' ∷ b' '
    ∷ b'c' ∷ b'o' ∷ b'r' ∷ b'r' ∷ b'u' ∷ b'p' ∷ b't' ∷ b'e' ∷ b'd' ∷ b' ' ∷ b'(' ∷ 39 ∷ b'.' ∷ b'.'
    ∷ 39 ∷ b' ' ∷ b'm' ∷ b'i' ∷ b's' ∷ b's' ∷ b'i' ∷ b'n' ∷ b'g' ∷ b')' ∷ b'.' ∷ b'\n' ∷ []

abbrev pub messages : Messages
messages = record {
  exists =
      b'D' ∷ b'i' ∷ b'r' ∷ b'e' ∷ b'c' ∷ b't' ∷ b'o' ∷ b'r' ∷ b'y' ∷ b' ' ∷ b'o' ∷ b'r' ∷ b' '
      ∷ b'f' ∷ b'i' ∷ b'l' ∷ b'e' ∷ b' ' ∷ b'a' ∷ b'l' ∷ b'r' ∷ b'e' ∷ b'a' ∷ b'd' ∷ b'y' ∷ b' '
      ∷ b'e' ∷ b'x' ∷ b'i' ∷ b's' ∷ b't' ∷ b's' ∷ [];
  disk_full =
      b'E' ∷ b'r' ∷ b'r' ∷ b'o' ∷ b'r' ∷ b':' ∷ b' ' ∷ b'D' ∷ b'i' ∷ b's' ∷ b'k' ∷ b' ' ∷ b'F'
      ∷ b'u' ∷ b'l' ∷ b'l' ∷ b'.' ∷ b'\n' ∷ [];
  created =
      b'D' ∷ b'i' ∷ b'r' ∷ b'e' ∷ b'c' ∷ b't' ∷ b'o' ∷ b'r' ∷ b'y' ∷ b' ' ∷ b'c' ∷ b'r' ∷ b'e'
      ∷ b'a' ∷ b't' ∷ b'e' ∷ b'd' ∷ b' ' ∷ b's' ∷ b'u' ∷ b'c' ∷ b'c' ∷ b'e' ∷ b's' ∷ b's' ∷ b'f'
      ∷ b'u' ∷ b'l' ∷ b'l' ∷ b'y' ∷ b'.' ∷ b'\n' ∷ [];
  is_file =
      b'E' ∷ b'r' ∷ b'r' ∷ b'o' ∷ b'r' ∷ b':' ∷ b' ' ∷ b'T' ∷ b'a' ∷ b'r' ∷ b'g' ∷ b'e' ∷ b't'
      ∷ b' ' ∷ b'p' ∷ b'a' ∷ b't' ∷ b'h' ∷ b' ' ∷ b'i' ∷ b's' ∷ b' ' ∷ b'a' ∷ b' ' ∷ b'f' ∷ b'i'
      ∷ b'l' ∷ b'e' ∷ b',' ∷ b' ' ∷ b'n' ∷ b'o' ∷ b't' ∷ b' ' ∷ b'a' ∷ b' ' ∷ b'd' ∷ b'i' ∷ b'r'
      ∷ b'e' ∷ b'c' ∷ b't' ∷ b'o' ∷ b'r' ∷ b'y' ∷ b'.' ∷ b'\n' ∷ [];
  not_empty =
      b'E' ∷ b'r' ∷ b'r' ∷ b'o' ∷ b'r' ∷ b':' ∷ b' ' ∷ b'D' ∷ b'i' ∷ b'r' ∷ b'e' ∷ b'c' ∷ b't'
      ∷ b'o' ∷ b'r' ∷ b'y' ∷ b' ' ∷ b'i' ∷ b's' ∷ b' ' ∷ b'n' ∷ b'o' ∷ b't' ∷ b' ' ∷ b'e' ∷ b'm'
      ∷ b'p' ∷ b't' ∷ b'y' ∷ b'.' ∷ b'\n' ∷ [];
  deleted =
      b'D' ∷ b'i' ∷ b'r' ∷ b'e' ∷ b'c' ∷ b't' ∷ b'o' ∷ b'r' ∷ b'y' ∷ b' ' ∷ b'd' ∷ b'e' ∷ b'l'
      ∷ b'e' ∷ b't' ∷ b'e' ∷ b'd' ∷ b' ' ∷ b's' ∷ b'u' ∷ b'c' ∷ b'c' ∷ b'e' ∷ b's' ∷ b's' ∷ b'f'
      ∷ b'u' ∷ b'l' ∷ b'l' ∷ b'y' ∷ b'.' ∷ b'\n' ∷ [];
}
