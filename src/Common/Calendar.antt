-- ===== src/Common/Calendar.antt =====
-- Dates of the Gregorian calendar as days from 1 January of the year 0, and the layout 2006-01-02 of Go's
-- time package.
pub mod RoundTrip
use Prim.Native.Nat.{ℕ, zero, suc, ◌+◌, ◌-◌, ◌*◌, ◌/◌, ◌%◌, ◌≤◌, ◌<◌}
use Prim.Native.Char.{code}
use Prim.Native.String
use Prim.Native.String.{String}
use mathlib.Core.Path.{◌≡◌, refl}
use mathlib.Core.Bool.{Bool, true, false, not, ◌&&◌, ◌||◌}
use mathlib.Core.Option.{Option, none, some}
use gradconnect_api.Common.Tests.{leb, ltb, eqb, if◌then◌else◌}
use gradconnect_api.Common.Decimal.{digit_char, is_digit}

-- 0001-01-01, the zero of Go's time.Time
abbrev pub zero_date : ℕ
zero_date = 366

abbrev pub is_leap : ℕ → Bool
is_leap y = eqb (y % 4) 0 && (not (eqb (y % 100) 0) || eqb (y % 400) 0)

-- The days of the years before a year: of those the multiples of 4 but not of 100, or of 400, are leap.
unfoldable pub days_before_year : ℕ → ℕ
days_before_year y = 365 * y + (y + 3) / 4 + (y + 399) / 400 - (y + 99) / 100

-- The days of a common year before a month, and in it.
abbrev pub days_before_month : ℕ → ℕ
days_before_month m =
    if leb m 1
    then 0
    else if leb m 2
    then 31
    else if leb m 3
    then 59
    else if leb m 4
    then 90
    else if leb m 5
    then 120
    else if leb m 6
    then 151
    else if leb m 7
    then 181
    else if leb m 8
    then 212
    else if leb m 9
    then 243
    else if leb m 10
    then 273
    else if leb m 11
    then 304
    else if leb m 12
    then 334
    else 365

abbrev pub leap_day : Bool → ℕ → ℕ
leap_day leap m = if leap && ltb 2 m then 1 else 0

-- The days of a year before a month.
unfoldable pub start_of_month : Bool → ℕ → ℕ
start_of_month leap m = days_before_month m + leap_day leap m

unfoldable pub date_of : ℕ → ℕ → ℕ → ℕ
unfolding days_before_year start_of_month
date_of y m d = days_before_year y + start_of_month (is_leap y) m + (d - 1)

-- A year of the cycle has 146097 / 400 days on average, so the quotient is at most one year off.
unfoldable pub year_of : ℕ → ℕ
unfolding days_before_year
year_of date =
    let y = date * 400 / 146097 in
    if leb (days_before_year (y + 1)) date
    then y + 1
    else if ltb date (days_before_year y)
    then y - 1
    else y

-- `t.YearDay()`, less 1
unfoldable pub year_day : ℕ → ℕ
unfolding year_of days_before_year
year_day date = date - days_before_year (year_of date)

unfoldable pub month_of : Bool → ℕ → ℕ
unfolding start_of_month
month_of leap n =
    if ltb n (start_of_month leap 2)
    then 1
    else if ltb n (start_of_month leap 3)
    then 2
    else if ltb n (start_of_month leap 4)
    then 3
    else if ltb n (start_of_month leap 5)
    then 4
    else if ltb n (start_of_month leap 6)
    then 5
    else if ltb n (start_of_month leap 7)
    then 6
    else if ltb n (start_of_month leap 8)
    then 7
    else if ltb n (start_of_month leap 9)
    then 8
    else if ltb n (start_of_month leap 10)
    then 9
    else if ltb n (start_of_month leap 11)
    then 10
    else if ltb n (start_of_month leap 12)
    then 11
    else 12

-- `%02d` of a number below 100, before a text
abbrev pub two_digits : ℕ → String → String
two_digits n rest = String.◌∷◌ (digit_char (n / 10)) (String.◌∷◌ (digit_char (n % 10)) rest)

-- `t.Format("2006-01-02")`, up to the year 9999
unfoldable pub format_date : ℕ → String
unfolding year_of year_day month_of start_of_month digit_char
format_date date =
    let y = year_of date in
    let n = year_day date in
    let m = month_of (is_leap y) n in
    two_digits (y / 100) (
      two_digits (y % 100) (
        String.◌∷◌ "-"
          (two_digits m (String.◌∷◌ "-" (two_digits (n - start_of_month (is_leap y) m + 1) "")))))

-- A number of two digits at the start of a text, and what follows.
unfoldable pub read_two : String → Option (ℕ × String)
unfolding is_digit
read_two (String.◌∷◌ a (String.◌∷◌ b s)) =
    if is_digit (code a) && is_digit (code b)
    then some ((code a - b'0') * 10 + (code b - b'0'), s)
    else none
read_two _ = none

abbrev pub after_dash : String → Option String
after_dash String.[] = none
after_dash (String.◌∷◌ c s) = if eqb (code c) b'-' then some s else none

abbrev pub bind : {A B : Type 0} → Option A → (A → Option B) → Option B
bind none f = none
bind (some a) f = f a

abbrev pub is_end : String → Bool
is_end String.[] = true
is_end (String.◌∷◌ c s) = false

abbrev pub days_in_month : Bool → ℕ → ℕ
days_in_month leap m = start_of_month leap (m + 1) - start_of_month leap m

abbrev pub valid_date : ℕ → ℕ → ℕ → Option ℕ
valid_date y m d =
    if leb 1 m && leb m 12 && leb 1 d && leb d (days_in_month (is_leap y) m)
    then some (date_of y m d)
    else none

-- `time.Parse("2006-01-02", s)`
unfoldable pub parse_date : String → Option ℕ
unfolding read_two date_of start_of_month days_before_year
parse_date s = bind (read_two s) λ (century, s1). bind (read_two s1) λ (year, s2).
    bind (after_dash s2) λ s3. bind (read_two s3) λ (month, s4). bind (after_dash s4) λ s5.
      bind (read_two s5)
        λ (d, s6). if is_end s6 then valid_date (century * 100 + year) month d else none

leap_year : parse_date "2024-02-29" ≡ some 739310
unfolding parse_date
leap_year = refl

printed : format_date 739310 ≡ "2024-02-29"
unfolding format_date
printed = refl

no_leap_year : parse_date "2023-02-29" ≡ none
unfolding parse_date
no_leap_year = refl

zero_is : parse_date "0001-01-01" ≡ some zero_date
unfolding parse_date
zero_is = refl
