-- ===== src/Calc/Tests.antt =====
-- Examples: 12 / 5, and a line without an operator.
use sojebos.Common.{◌≡◌, refl, false}
use sojebos.Strings.{is_digit}

slash_sign : is_digit b'/' ≡ false
slash_sign = refl
