-- ===== src/Prelude/Ints.antt =====
-- Signed integers, and their decimal texts as packages `fmt` and `strconv` write and read them.
use Prim.Native.Nat.{ℕ, zero, suc, ◌+◌, ◌-◌, ◌*◌, ◌/◌, ◌%◌, ◌^◌}
use mathlib.Core.Bool.{Bool, true, false, ◌&&◌}
use mathlib.Core.Option.{Option, none, some}
use mathlib.Core.List.{[], ◌∷◌, ◌++◌}
use crate_html.Prelude.Tests.{ltb, leb, eqb, if◌then◌else◌}
use crate_html.Prelude.Bytes.{Text}

pub data ℤ : Type 0 where
  pos : ℕ → ℤ
  negsuc : ℕ → ℤ

-- `x <= 0`
abbrev pub is_nonpos : ℤ → Bool
is_nonpos (pos zero) = true
is_nonpos (pos (suc n)) = false
is_nonpos (negsuc n) = true

abbrev pub is_zero : ℤ → Bool
is_zero (pos zero) = true
is_zero (pos (suc n)) = false
is_zero (negsuc n) = false

-- The digits of a number below ten to the power of the fuel, without leading zeros.
unfoldable pub digits : ℕ → ℕ → Text
digits zero n = []
digits (suc fuel) n =
    let front = digits fuel (n / 10) in
    if ltb n 10 then (b'0' + n) ∷ [] else front ++ (b'0' + n % 10) ∷ []

-- `%d`, for numbers of at most twenty digits, which holds for 64 bits.
unfoldable pub format_nat : ℕ → Text
unfolding digits
format_nat n = digits 20 n

unfoldable pub format_int : ℤ → Text
unfolding format_nat
format_int (pos n) = format_nat n
format_int (negsuc n) = b'-' ∷ format_nat (suc n)

-- The value of a text of digits behind the digits read so far; `none` for any other byte.
unfoldable pub parse_digits : ℕ → Text → Option ℕ
parse_digits n [] = some n
parse_digits n (c ∷ s) =
    let rest = parse_digits (10 * n + (c - b'0')) s in
    if leb b'0' c && leb c b'9' then rest else none

-- At least one digit.
unfoldable pub parse_nat : Text → Option ℕ
unfolding parse_digits
parse_nat [] = none
parse_nat (c ∷ s) = parse_digits 0 (c ∷ s)

-- An integer of 64 bits from its sign and magnitude, `none` out of range.
unfoldable pub signed_int64 : Bool → ℕ → Option ℤ
signed_int64 false n = if ltb n (2 ^ 63) then some (pos n) else none
signed_int64 true zero = some (pos 0)
signed_int64 true (suc n) = if ltb n (2 ^ 63) then some (negsuc n) else none

abbrev pub with_sign : Bool → Option ℕ → Option ℤ
with_sign negative none = none
with_sign negative (some n) = signed_int64 negative n

-- strconv.ParseInt(s, 10, 64)
unfoldable pub parse_int64 : Text → Option ℤ
unfolding parse_nat
parse_int64 [] = none
parse_int64 (c ∷ s) =
    if eqb c b'-'
    then with_sign true (parse_nat s)
    else if eqb c b'+'
    then with_sign false (parse_nat s)
    else with_sign false (parse_nat (c ∷ s))
