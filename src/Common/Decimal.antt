-- ===== src/Common/Decimal.antt =====
-- Decimal texts: strconv's printing and parsing of small integers, and the `%d` of fmt.
pub mod RoundTrip
use Prim.Native.Nat.{ℕ, zero, suc, ◌+◌, ◌-◌, ◌*◌, ◌/◌, ◌%◌, ◌^◌, ◌≤◌, ◌<◌}
use Prim.Native.Char.{Char, code}
use Prim.Native.String
use Prim.Native.String.{String}
use mathlib.Core.Path.{◌≡◌, refl}
use mathlib.Core.Bool.{Bool, true, false, not, ◌&&◌}
use mathlib.Core.Option.{Option, none, some}
use gradconnect_api.Common.Tests.{leb, ltb, eqb, if◌then◌else◌}
use mathlib.Core.List.{List, [], ◌∷◌}
use gradconnect_api.Common.Int.{ℤ, pos, negsuc}

-- The digit of a number below 10.
unfoldable pub digit_char : ℕ → Char
digit_char zero = "0"
digit_char (suc zero) = "1"
digit_char (suc (suc zero)) = "2"
digit_char (suc (suc (suc zero))) = "3"
digit_char (suc (suc (suc (suc zero)))) = "4"
digit_char (suc (suc (suc (suc (suc zero))))) = "5"
digit_char (suc (suc (suc (suc (suc (suc zero)))))) = "6"
digit_char (suc (suc (suc (suc (suc (suc (suc zero))))))) = "7"
digit_char (suc (suc (suc (suc (suc (suc (suc (suc zero)))))))) = "8"
digit_char (suc (suc (suc (suc (suc (suc (suc (suc (suc n))))))))) = "9"

-- The digits of a number, before a text; a number has fewer digits than its fuel.
unfoldable pub digits : ℕ → ℕ → String → String
unfolding digit_char
digits zero n out = out
digits (suc fuel) n out =
    let more = digits fuel (n / 10) (String.◌∷◌ (digit_char (n % 10)) out) in
    if ltb n 10 then String.◌∷◌ (digit_char n) out else more

-- `%d` of a natural number
unfoldable pub decimal : ℕ → String
unfolding digits
decimal n = digits (suc n) n ""

-- `%d` in front of a text
unfoldable pub print : ℤ → String → String
unfolding digits
print (pos n) out = digits (suc n) n out
print (negsuc n) out = String.◌∷◌ "-" (digits (suc (suc n)) (suc n) out)

unfoldable pub decimalℤ : ℤ → String
unfolding print
decimalℤ z = print z ""

unfoldable pub is_digit : ℕ → Bool
is_digit c = leb b'0' c && leb c b'9'

-- The value of a text of digits, behind the digits read so far.
unfoldable pub scan_digits : String → ℕ → Option ℕ
unfolding is_digit
scan_digits String.[] acc = some acc
scan_digits (String.◌∷◌ c s) acc =
    let rest = scan_digits s (acc * 10 + (code c - b'0')) in
    if is_digit (code c) then rest else none

-- One digit at least.
unfoldable pub read_digits : String → Option ℕ
unfolding scan_digits
read_digits String.[] = none
read_digits (String.◌∷◌ c s) = scan_digits (String.◌∷◌ c s) 0

abbrev pub bounded : ℕ → (ℕ → ℤ) → Option ℕ → Option ℤ
bounded most sign none = none
bounded most sign (some n) = if leb n most then some (sign n) else none

abbrev pub minus : ℕ → ℤ
minus zero = pos 0
minus (suc n) = negsuc n

-- `strconv.ParseInt(s, 10, bits)`, with the largest and the negated smallest value
unfoldable pub parse_int : ℕ → ℕ → String → Option ℤ
unfolding read_digits
parse_int most least String.[] = none
parse_int most least (String.◌∷◌ c s) =
    if eqb (code c) b'-'
    then bounded least minus (read_digits s)
    else if eqb (code c) b'+'
    then bounded most pos (read_digits s)
    else bounded most pos (read_digits (String.◌∷◌ c s))

abbrev put : Char → List String → List String
put c [] = []
put c (part ∷ parts) = String.◌∷◌ c part ∷ parts

-- `strings.Split(s, " ")`
unfoldable pub split_spaces : String → List String
split_spaces String.[] = "" ∷ []
split_spaces (String.◌∷◌ c s) =
    if eqb (code c) b' ' then "" ∷ split_spaces s else put c (split_spaces s)

decimal_small : decimalℤ (negsuc 1203) ≡ "-1204"
unfolding decimalℤ
decimal_small = refl

parse_small : parse_int 127 128 "-128" ≡ some (negsuc 127)
unfolding parse_int
parse_small = refl
