-- ===== src/Strings/Tests.antt =====
-- Examples: the notations of a number and of an address.
use sojebos.Common.{◌+◌, ◌*◌, ◌^◌, ◌≡◌, refl, arith, [], ◌∷◌, ◌++◌}
use sojebos.Strings.{atoi, itoa, digits_of, swap_ends, parse_ip}
use sojebos.Strings.Digits.{atoi-itoa}
use sojebos.Strings.Address.{parse_ip-itoa}

atoi-itoa_example : atoi (itoa 1994 ++ (b' ' ∷ [])) ≡ 1994
atoi-itoa_example = atoi-itoa 1994 (b' ' ∷ []) (omega arith) refl

parse_ip-itoa_example :
    parse_ip (itoa 192 ++ (b'.' ∷ (itoa 168 ++ (b'.' ∷ (itoa 10 ++ (b'.' ∷ itoa 11))))))
    ≡ 192 + 168 * 2 ^ 8 + 10 * 2 ^ 16 + 11 * 2 ^ 24
parse_ip-itoa_example =
    parse_ip-itoa 192 168 10 11 (omega arith) (omega arith) (omega arith) (omega arith)

itoa_run : itoa 0xFFFFFFD6 ≡ b'-' ∷ b'4' ∷ b'2' ∷ []
unfolding itoa digits_of swap_ends
itoa_run = refl
