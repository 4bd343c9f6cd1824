-- ===== src/Fat32/Name.antt =====
-- `format_filename` and `print_name` of fat32.c: names of 8 and 3 characters.
--
-- A C string is the list of its bytes before the terminating zero.
use sojebos.Common.{ℕ, zero, suc, ◌+◌, ◌-◌, ◌&&◌, List, [], ◌∷◌, ◌++◌, length, take, replicate}
use sojebos.Common.{leb, ◌==◌, if◌then◌else◌, get_or}
use sojebos.Strings.{c_string}

abbrev pub space : ℕ
space = b' '

abbrev pub dot : ℕ
dot = b'.'

unfoldable pub to_upper : ℕ → ℕ
to_upper c = if leb b'a' c && leb c b'z' then c - 32 else c

-- The loop over the name part, with room for `n` characters: what is written, and what is left.
unfoldable pub name_part : ℕ → List ℕ → List ℕ × List ℕ
name_part zero input = ([], input)
name_part (suc n) [] = ([], [])
name_part (suc n) (c ∷ cs) =
    let rest = name_part n cs in if c == dot then ([], c ∷ cs) else (to_upper c ∷ rest.0, rest.1)

-- The loop over the extension.
unfoldable pub extension_part : ℕ → List ℕ → List ℕ
extension_part zero input = []
extension_part (suc n) [] = []
extension_part (suc n) (c ∷ cs) = to_upper c ∷ extension_part n cs

-- Characters written over a field of `n` spaces.
unfoldable pub pad : ℕ → List ℕ → List ℕ
pad n text = take n (text ++ replicate n space)

unfoldable pub extension_of : List ℕ → List ℕ
extension_of [] = []
extension_of (c ∷ cs) = if c == dot then extension_part 3 cs else []

-- `.` and `..` are kept as they are.
unfoldable pub format_filename : List ℕ → List ℕ
format_filename input =
    let split = name_part 8 input in
    if (length input == 1) && (get_or input 0 0 == dot)
    then pad 11 (dot ∷ [])
    else if (length input == 2) && (get_or input 0 0 == dot) && (get_or input 1 0 == dot)
    then pad 11 (dot ∷ dot ∷ [])
    else pad 8 split.0 ++ pad 3 (extension_of split.1)

unfoldable pub without_spaces : List ℕ → List ℕ
without_spaces [] = []
without_spaces (c ∷ cs) = let rest = without_spaces cs in if c == space then rest else c ∷ rest

-- The loops of `print_name`: `n` bytes of the name from byte `i`, the spaces left out, behind `out`.
unfoldable pub copy_name : ℕ → ℕ → List ℕ → List ℕ → List ℕ
copy_name zero i name out = out
copy_name (suc n) i name out =
    copy_name n (i + 1) name (if get_or name i 0 == space then out else out ++ get_or name i 0 ∷ [])

-- The text that `print_name` shows for the eleven bytes of an entry: `out` up to its first zero, and a
-- new line; nothing for a deleted one.
unfoldable pub print_name : List ℕ → List ℕ
print_name name =
    let base = copy_name 8 0 name [] in
    let whole = copy_name 3 8 name (base ++ dot ∷ []) in
    if get_or name 0 0 == 0xe5
    then []
    else c_string (if get_or name 8 0 == space then base else whole) ++ b'\n' ∷ []
