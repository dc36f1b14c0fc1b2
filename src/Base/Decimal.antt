-- ===== src/Base/Decimal.antt =====
-- strconv.FormatInt(n, 10) and strconv.ParseInt(s, 10, 64).
pub mod RoundTrip
pub mod Length
use Prim.Native.Nat.{ℕ, zero, suc, ◌+◌, ◌-◌, ◌*◌, ◌/◌, ◌%◌, ◌^◌}
use Prim.Native.Char.{Char, code}
use Prim.Native.String.{String, [], ◌∷◌}
use mathlib.Core.Path.{◌≡◌, refl}
use mathlib.Core.Bool.{Bool, true, false, ◌&&◌}
use mathlib.Core.Option.{Option, none, some}
use k4all_operator.Base.Tests.{ltb, leb, nat_eq, if◌then◌else◌}
use k4all_operator.Base.Int.{ℤ, pos, negsuc}

pub digit : ℕ → Char
digit d =
    if nat_eq d 0
    then "0"
    else if nat_eq d 1
    then "1"
    else if nat_eq d 2
    then "2"
    else if nat_eq d 3
    then "3"
    else if nat_eq d 4
    then "4"
    else if nat_eq d 5
    then "5"
    else if nat_eq d 6
    then "6"
    else if nat_eq d 7
    then "7"
    else if nat_eq d 8
    then "8"
    else "9"

-- The digits of `n` before `out`; the fuel `n` is enough.
format_digits : ℕ → ℕ → String → String
unfolding digit
format_digits zero n out = out
format_digits (suc fuel) n out =
    let more = format_digits fuel (n / 10) (digit (n % 10) ∷ out) in
    if nat_eq n 0 then out else more

format_nat : ℕ → String
unfolding format_digits
format_nat zero = "0"
format_nat (suc n) = format_digits (suc n) (suc n) []

unfoldable pub format_int : ℤ → String
unfolding format_nat
format_int (pos n) = format_nat n
format_int (negsuc n) = "-" ∷ format_nat (suc n)

digits_value : String → ℕ → Option ℕ
digits_value [] n = some n
digits_value (c ∷ s) n =
    if leb b'0' (code c) && leb (code c) b'9'
    then digits_value s (n * 10 + (code c - b'0'))
    else none

unsigned : String → Option ℕ
unfolding digits_value
unsigned [] = none
unsigned (c ∷ s) = digits_value (c ∷ s) 0

abbrev negate : ℕ → ℤ
negate zero = pos 0
negate (suc n) = negsuc n

-- The range of int64.
positive : Option ℕ → Option ℤ
positive none = none
positive (some n) = if ltb n (2 ^ 63) then some (pos n) else none

negative : Option ℕ → Option ℤ
negative none = none
negative (some n) = if leb n (2 ^ 63) then some (negate n) else none

-- `none` is any error of ParseInt.
unfoldable pub parse_int : String → Option ℤ
unfolding unsigned positive negative
parse_int [] = none
parse_int (c ∷ s) =
    if nat_eq (code c) b'-'
    then negative (unsigned s)
    else if nat_eq (code c) b'+'
    then positive (unsigned s)
    else positive (unsigned (c ∷ s))

prints : (format_int (pos 1732636800) ≡ "1732636800") × (format_int (negsuc 41) ≡ "-42")
unfolding format_int
prints = (refl, refl)

parses : (parse_int "+07" ≡ some (pos 7)) × (parse_int "9223372036854775808" ≡ none)
unfolding parse_int
parses = (refl, refl)
