-- ===== src/Common/Quoting.antt =====
-- JSON texts in double quotes: strconv's Quote and Unquote, and the Trim of quotes of the strings package.
use Prim.Native.Nat.{ℕ, suc, zero, ◌+◌, ◌-◌, ◌*◌, Ordering, compare}
use Prim.Native.Char.{Char, char, code}
use Prim.Native.String.{String}
use mathlib.Core.Path.{◌≡◌, refl}
use mathlib.Core.Bool.{Bool, false, ◌&&◌, ◌||◌}
use mathlib.Core.Logic.{inl, inr}
use mathlib.Core.Option.{Option, none, some}
use native.Mathlib.Omega.{arith}
use gradconnect_api.Common.Calendar.{is_end}
use gradconnect_api.Common.Tests.{leb, eqb, if◌then◌else◌, Bool-cases}

abbrev pub is_quote : Char → Bool
is_quote c = eqb (code c) b'"'

abbrev is_escaped : Char → Bool
is_escaped c = is_quote c || eqb (code c) 92

unfoldable quote_rest : String → String
quote_rest String.[] = "\""
quote_rest (String.◌∷◌ c s) =
    if is_escaped c
    then String.◌∷◌ "\\" (String.◌∷◌ c (quote_rest s))
    else String.◌∷◌ c (quote_rest s)

-- `strconv.Quote`, of a text of printable characters
unfoldable pub quote : String → String
unfolding quote_rest
quote s = String.◌∷◌ "\"" (quote_rest s)

abbrev high_char :
    (n : ℕ) (o p q : Ordering)
    → compare n 55296 ≡ o
    → compare 57343 n ≡ p
    → compare n 1114112 ≡ q
    → Option Char
high_char n Ordering.lt _ _ e f g = some (char n (rw e tt))
high_char n Ordering.eq Ordering.lt Ordering.lt e f g = some (char n (rw (e, f, g) tt))
high_char n Ordering.gt Ordering.lt Ordering.lt e f g = some (char n (rw (e, f, g) tt))
high_char n _ _ _ e f g = none

-- The character of a code point, unless it is a surrogate or too large.
abbrev char_of : ℕ → Option Char
char_of n = high_char n (compare n 55296) (compare 57343 n) (compare n 1114112) refl refl refl

-- The value of a hexadecimal digit.
abbrev hex_value : ℕ → Option ℕ
hex_value c =
    if leb b'0' c && leb c b'9'
    then some (c - b'0')
    else if leb b'a' c && leb c b'f'
    then some (c - b'a' + 10)
    else if leb b'A' c && leb c b'F'
    then some (c - b'A' + 10)
    else none

-- Where Unquote is: between characters, behind a backslash, or in an escape \uXXXX with digits to come.
pub data Quoted : Type 0 where
  plain escape : Quoted
  hex : ℕ → ℕ → Quoted

-- What the character behind a backslash stands for.
abbrev escaped : ℕ → Option Char
escaped c =
    if eqb c b'b'
    then char_of 8
    else if eqb c b'f'
    then char_of 12
    else if eqb c b'n'
    then char_of 10
    else if eqb c b'r'
    then char_of 13
    else if eqb c b't'
    then char_of 9
    else none

abbrev push : Option Char → Option String → Option String
push (some c) (some s) = some (String.◌∷◌ c s)
push _ _ = none

abbrev read_hex : ℕ → ℕ → Option ℕ → (ℕ → ℕ → Option String) → Option String → Option String
read_hex left acc none more rest = none
read_hex zero acc (some v) more rest = push (char_of (acc * 16 + v)) rest
read_hex (suc left) acc (some v) more rest = more left (acc * 16 + v)

-- The contents up to the closing quote, which has to be the last character.
unfoldable unquote_rest : String → Quoted → Option String
unquote_rest String.[] q = none
unquote_rest (String.◌∷◌ c s) plain =
    let rest = unquote_rest s plain in
    let behind = unquote_rest s escape in
    if is_quote c
    then (if is_end s then some "" else none)
    else if eqb (code c) 92
    then behind
    else push (some c) rest
unquote_rest (String.◌∷◌ c s) escape =
    let rest = unquote_rest s plain in
    let digits = unquote_rest s (hex 3 0) in
    if is_escaped c
    then push (some c) rest
    else if eqb (code c) b'u'
    then digits
    else push (escaped (code c)) rest
unquote_rest (String.◌∷◌ c s) (hex left acc) =
    read_hex left acc (hex_value (code c)) (λ l a. unquote_rest s (hex l a)) (unquote_rest s plain)

-- `strconv.Unquote`, of a JSON value: encoding/json passes no other text on, so of the quotes and escapes
-- of Go those that JSON does not have are left out. `none` is ErrSyntax.
unfoldable pub unquote : String → Option String
unfolding unquote_rest
unquote String.[] = none
unquote (String.◌∷◌ c s) = if is_quote c then unquote_rest s plain else none

unfoldable trim_left : String → String
trim_left String.[] = ""
trim_left (String.◌∷◌ c s) = let rest = trim_left s in if is_quote c then rest else String.◌∷◌ c s

unfoldable trim_right : String → String
trim_right String.[] = ""
trim_right (String.◌∷◌ c s) =
    let rest = trim_right s in if is_quote c && is_end rest then "" else String.◌∷◌ c rest

-- `strings.Trim(s, `"`)`
unfoldable pub trim_quotes : String → String
unfolding trim_left trim_right
trim_quotes s = trim_right (trim_left s)

unfoldable before_quote : String → String
before_quote String.[] = "\""
before_quote (String.◌∷◌ c s) = String.◌∷◌ c (before_quote s)

-- A text between two quotes, without an escape.
unfoldable pub in_quotes : String → String
unfolding before_quote
in_quotes s = String.◌∷◌ "\"" (before_quote s)

-- A text without a quote.
abbrev pub HasNoQuote : String → Type 0
HasNoQuote String.[] = Unit
HasNoQuote (String.◌∷◌ c s) = (is_quote c ≡ false) × HasNoQuote s

not_end : (s : String) → is_end (quote_rest s) ≡ false
unfolding quote_rest
not_end String.[] = refl
not_end (String.◌∷◌ c s) = elim (Bool-cases (is_escaped c)) [
  | inl e ↦ rw e refl
  | inr e ↦ rw e refl
]

unquote_rest-quote_rest : (s : String) → unquote_rest (quote_rest s) plain ≡ some s
unfolding unquote_rest quote_rest
unquote_rest-quote_rest String.[] = refl
unquote_rest-quote_rest (String.◌∷◌ c s) =
    let rest = unquote_rest-quote_rest s in
    elim (Bool-cases (is_escaped c)) [
      | inl special ↦ rw (special, rest, special) refl
      | inr ordinary ↦
          let no_quote : is_quote c ≡ false = ground arith in
          let no_backslash : eqb (code c) 92 ≡ false = ground arith in
          rw (ordinary, no_quote, no_backslash, rest) refl
    ]

-- A quoted text is read back.
pub unquote-quote : (s : String) → unquote (quote s) ≡ some s
unfolding unquote quote
unquote-quote s = unquote_rest-quote_rest s

trim_right-before_quote : (s : String) → HasNoQuote s → trim_right (before_quote s) ≡ s
unfolding trim_right before_quote
trim_right-before_quote String.[] h = refl
trim_right-before_quote (String.◌∷◌ c s) h = rw (h.0, trim_right-before_quote s h.1) refl

-- Trim takes the quotes off a text that has none itself.
pub trim_quotes-in_quotes :
    (c : Char) (s : String)
    → is_quote c ≡ false
    → HasNoQuote s
    → trim_quotes (in_quotes (String.◌∷◌ c s)) ≡ String.◌∷◌ c s
unfolding trim_quotes in_quotes trim_left trim_right before_quote
trim_quotes-in_quotes c s first h = rw (first, trim_right-before_quote s h, first) refl
