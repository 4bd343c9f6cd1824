-- ===== src/Strings.antt =====
-- src/kernel/libc/string.c: the functions on strings.
--
-- A string is the list of the bytes from its pointer on; it ends at the first zero, and the end of
-- the list counts as one. A pointer that a function returns is an offset. `int` is a word of 32
-- bits, negative from 2 ^ 31 on. `memcpy` is in Heap/Realloc, `strcmp` in HashTable.
pub mod Digits
pub mod Reverse
pub mod Address
mod Tests
use sojebos.Common.{ℕ, zero, suc, ◌+◌, ◌-◌, ◌*◌, ◌/◌, ◌%◌, ◌^◌, Bool, ◌&&◌, Option, none, some}
use sojebos.Common.{List, [], ◌∷◌, ◌++◌, length, get_or, set, drop, bit_or}
use sojebos.Common.{ltb, leb, ◌==◌, if◌then◌else◌, u32}

-- The characters before the first zero
unfoldable pub c_string : List ℕ → List ℕ
c_string [] = []
c_string (c ∷ s) = if c == 0 then [] else c ∷ c_string s

unfoldable pub strlen : List ℕ → ℕ
strlen [] = 0
strlen (c ∷ s) = if c == 0 then 0 else suc (strlen s)

unfoldable pub strchr : List ℕ → ℕ → Option ℕ
strchr [] c = none
strchr (x ∷ s) c =
    let rest : Option ℕ = elim (strchr s c) [ none ↦ none | some k ↦ some (suc k) ] in
    if x == 0 then none else if x == c then some 0 else rest

abbrev pub is_digit : ℕ → Bool
is_digit c = leb b'0' c && leb c b'9'

-- The loop of `atoi`, from `result`
unfoldable pub atoi_from : ℕ → List ℕ → ℕ
atoi_from result [] = result
atoi_from result (c ∷ s) =
    let rest = atoi_from (u32 (result * 10 + (c - b'0'))) s in if is_digit c then rest else result

unfoldable pub atoi : List ℕ → ℕ
unfolding atoi_from
atoi str = atoi_from 0 str

-- The loops of `itoa` over the digits, the lowest first. A number below 2 ^ 32 has at most ten.
unfoldable pub digits_of : ℕ → ℕ → List ℕ
digits_of zero num = []
digits_of (suc fuel) num =
    let rest = digits_of fuel (num / 10) in if num == 0 then [] else (num % 10 + b'0') ∷ rest

-- The last loop of `itoa`: the characters from `start` to `end` change places.
unfoldable pub swap_ends : ℕ → ℕ → ℕ → List ℕ → List ℕ
swap_ends zero start end str = str
swap_ends (suc fuel) start end str =
    let swapped = set (set str start (get_or str end 0)) end (get_or str start 0) in
    let rest = swap_ends fuel (start + 1) (end - 1) swapped in if ltb start end then rest else str

-- The characters that stand before the zero. `end` is -1 in no case: there is a digit.
unfoldable pub itoa : ℕ → List ℕ
itoa num =
    let backwards =
      if ltb num (2 ^ 31) then digits_of 10 num else digits_of 10 (2 ^ 32 - num) ++ b'-' ∷ [] in
    let reversed = swap_ends (length backwards) 0 (length backwards - 1) backwards in
    if num == 0 then b'0' ∷ [] else reversed

unfoldable pub strlower : List ℕ → List ℕ
strlower [] = []
strlower (c ∷ s) =
    if c == 0 then c ∷ s else (if leb b'A' c && leb c b'Z' then c + 32 else c) ∷ strlower s

unfoldable pub strupper : List ℕ → List ℕ
strupper [] = []
strupper (c ∷ s) =
    if c == 0 then c ∷ s else (if leb b'a' c && leb c b'z' then c - 32 else c) ∷ strupper s

-- The `n` bytes that `strncpy` writes
unfoldable pub copied : ℕ → List ℕ → List ℕ
copied zero src = []
copied (suc n) [] = 0 ∷ copied n []
copied (suc n) (c ∷ s) = if c == 0 then 0 ∷ copied n [] else c ∷ copied n s

-- `none`: the destination is shorter, and the C code writes behind it.
unfoldable pub strncpy : List ℕ → List ℕ → ℕ → Option (List ℕ)
unfolding copied
strncpy dest src n = if leb n (length dest) then some (copied n src ++ drop n dest) else none

-- The loop of `parse_ip`: `n` rounds from round `i`, with the dot that ends the number overwritten
unfoldable pub parse_octets : ℕ → ℕ → ℕ → List ℕ → ℕ
parse_octets zero i res ip = res
parse_octets (suc n) i res ip = elim (strchr ip b'.') [
  | some dot ↦
      parse_octets n (i + 1) (bit_or res (u32 (atoi (set ip dot 0) * 2 ^ (i * 8))))
        (drop (dot + 1) (set ip dot 0))
  | none ↦ parse_octets n (i + 1) (bit_or res (u32 (atoi ip * 2 ^ (i * 8)))) ip
]

unfoldable pub parse_ip : List ℕ → ℕ
parse_ip ip = parse_octets 4 0 0 ip

-- The pointer of `memcmp` goes on while the bytes agree; the result is their difference, here as
-- the two bytes.
unfoldable pub memcmp : List ℕ → List ℕ → ℕ → ℕ × ℕ
memcmp s1 s2 zero = (0, 0)
memcmp s1 s2 (suc n) =
    let rest = memcmp (drop 1 s1) (drop 1 s2) n in
    if get_or s1 0 0 == get_or s2 0 0 then rest else (get_or s1 0 0, get_or s2 0 0)

-- `memset(dest, c, n)` on memory
unfoldable pub memset : ℕ → ℕ → ℕ → (ℕ → ℕ) → ℕ → ℕ
memset dest c zero m = m
memset dest c (suc n) m = memset (dest + 1) c n (λ q. if q == dest then c % 256 else m q)
