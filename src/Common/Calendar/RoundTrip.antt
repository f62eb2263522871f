-- ===== src/Common/Calendar/RoundTrip.antt =====
-- A date that is printed is read back.
use Prim.Native.Nat.{ℕ, zero, suc, ◌+◌, ◌-◌, ◌*◌, ◌/◌, ◌%◌, ◌≤◌, ◌<◌}
use Prim.Native.Char.{code}
use Prim.Native.String.{String}
use mathlib.Core.Option.{some}
use gradconnect_api.Common.Decimal.{digit_char, is_digit}
use mathlib.Core.Path.{◌≡◌, refl, ap, ◌∙◌}
use mathlib.Core.Bool.{Bool, true, false}
use native.Mathlib.Omega.{arith}
use gradconnect_api.Common.Tests.{leb, leb_iff, if◌then◌else◌}
use gradconnect_api.Common.Calendar.{
  is_leap, days_before_year, start_of_month, date_of, year_of, year_day, month_of, two_digits,
  read_two, days_in_month, valid_date, format_date, parse_date,
}

-- A year has 365 days, and a leap year one more.
year_length :
    (y : ℕ) → days_before_year (y + 1) ≡ days_before_year y + 365 + (if is_leap y then 1 else 0)
unfolding days_before_year
year_length y = ground arith

pub year_of_bounds :
    (date : ℕ)
    → (days_before_year (year_of date) ≤ date) × (date < days_before_year (year_of date + 1))
unfolding year_of days_before_year
year_of_bounds date = ground arith

-- What the month of a day of the year has to meet.
abbrev IsMonth : Bool → ℕ → ℕ → Type 0
IsMonth leap n m =
    (1 ≤ m) × (m ≤ 12) × (start_of_month leap m ≤ n) × (n < start_of_month leap (m + 1))

month_of-IsMonth :
    (leap : Bool) (n : ℕ) → n < 365 + (if leap then 1 else 0) → IsMonth leap n (month_of leap n)
unfolding month_of start_of_month
month_of-IsMonth true n h = ground arith
month_of-IsMonth false n h = ground arith

digit_lem :
    (k : ℕ) → k < 10 → (is_digit (code (digit_char k)) ≡ true) × (code (digit_char k) - b'0' ≡ k)
unfolding digit_char is_digit
digit_lem zero h = (refl, refl)
digit_lem (suc zero) h = (refl, refl)
digit_lem (suc (suc zero)) h = (refl, refl)
digit_lem (suc (suc (suc zero))) h = (refl, refl)
digit_lem (suc (suc (suc (suc zero)))) h = (refl, refl)
digit_lem (suc (suc (suc (suc (suc zero))))) h = (refl, refl)
digit_lem (suc (suc (suc (suc (suc (suc zero)))))) h = (refl, refl)
digit_lem (suc (suc (suc (suc (suc (suc (suc zero))))))) h = (refl, refl)
digit_lem (suc (suc (suc (suc (suc (suc (suc (suc zero)))))))) h = (refl, refl)
digit_lem (suc (suc (suc (suc (suc (suc (suc (suc (suc zero))))))))) h = (refl, refl)
digit_lem (suc (suc (suc (suc (suc (suc (suc (suc (suc (suc n)))))))))) h = absurd (omega arith)

read_two-two_digits :
    (n : ℕ) (rest : String) → n < 100 → read_two (two_digits n rest) ≡ some (n, rest)
unfolding read_two
read_two-two_digits n rest h =
    let (a, b) = digit_lem (n / 10) (omega arith) in
    let (c, d) = digit_lem (n % 10) (omega arith) in
    rw (a, c, b, d) (ap (λ k. some (k, rest)) (omega arith))

valid_date_lem :
    (y m d date : ℕ)
    → 1 ≤ m
    → m ≤ 12
    → 1 ≤ d
    → d ≤ days_in_month (is_leap y) m
    → date_of y m d ≡ date
    → valid_date y m d ≡ some date
valid_date_lem y m d date m1 m12 d1 fits same =
    let a : leb 1 m ≡ true = ground arith in
    let b : leb m 12 ≡ true = ground arith in
    let c : leb 1 d ≡ true = ground arith in
    let e : leb d (days_in_month (is_leap y) m) ≡ true =
      (leb_iff d (days_in_month (is_leap y) m)).1 fits in
    rw (a, b, c, e) (ap (λ k. some k) same)

parse_date-digits :
    (c y m d : ℕ)
    → c < 100
    → y < 100
    → m < 100
    → d < 100
    → parse_date (
        two_digits c
          (two_digits y (String.◌∷◌ "-" (two_digits m (String.◌∷◌ "-" (two_digits d ""))))))
      ≡ valid_date (c * 100 + y) m d
unfolding parse_date
parse_date-digits c y m d hc hy hm hd =
    rw
      (read_two-two_digits c
        (two_digits y (String.◌∷◌ "-" (two_digits m (String.◌∷◌ "-" (two_digits d ""))))) hc)
      (rw
        (read_two-two_digits y (String.◌∷◌ "-" (two_digits m (String.◌∷◌ "-" (two_digits d ""))))
          hy)
        (rw (read_two-two_digits m (String.◌∷◌ "-" (two_digits d "")) hm)
          (rw (read_two-two_digits d "" hd) refl)))

year_day_small : (date : ℕ) → year_day date < 365 + (if is_leap (year_of date) then 1 else 0)
year_day_small date =
    let (low, high) = year_of_bounds date in
    let is : year_day date ≡ date - days_before_year (year_of date) = unfold year_day in refl in
    omega (arith, low, high, year_length (year_of date), is)

-- The year, the month and the day that are printed are those of the date.
date-parts :
    (date : ℕ)
    → let y = year_of date in
      let n = year_day date in
      let m = month_of (is_leap y) n in
      valid_date y m (n - start_of_month (is_leap y) m + 1) ≡ some date
date-parts date =
    let y = year_of date in
    let n = year_day date in
    let (low, high) = year_of_bounds date in
    let len = year_length y in
    let is : n ≡ date - days_before_year y = unfold year_day in refl in
    let (m1, m12, from, to) = month_of-IsMonth (is_leap y) n (omega (arith, low, high, len, is)) in
    unfold date_of in
    valid_date_lem y (month_of (is_leap y) n)
      (n - start_of_month (is_leap y) (month_of (is_leap y) n) + 1) date m1 m12 (omega arith)
      (omega (arith, from, to)) (omega (arith, from, low, is))

month_short : (leap : Bool) (m : ℕ) → start_of_month leap (m + 1) ≤ start_of_month leap m + 31
unfolding start_of_month
month_short true m = ground arith
month_short false m = ground arith

year_small : (date : ℕ) → date < days_before_year 10000 → year_of date < 10000
year_small date h =
    let (low, high) = year_of_bounds date in unfold days_before_year in omega (arith, low, h)

-- Every date up to the year 9999 is read back from its text.
pub parse_date-format_date :
    (date : ℕ) → date < days_before_year 10000 → parse_date (format_date date) ≡ some date
unfolding format_date
parse_date-format_date date h =
    let y = year_of date in
    let n = year_day date in
    let leap = is_leap y in
    let m = month_of leap n in
    let small = year_small date h in
    let (m1, m12, from, to) = month_of-IsMonth leap n (year_day_small date) in
    let short = month_short leap m in
    let whole : y / 100 * 100 + y % 100 ≡ y = omega arith in
    parse_date-digits (y / 100) (y % 100) m (n - start_of_month leap m + 1) (omega (arith, small))
      (omega arith) (omega (arith, m12)) (omega (arith, from, to, short))
    ∙ ap (λ k. valid_date k m (n - start_of_month leap m + 1)) whole
    ∙ date-parts date
