-- ===== src/Data/Dates.antt =====
-- internal/data/types.go: the JSON text of a `Date`. An error of time.Parse is `none`.

use gradconnect_api.Common.{
  ℕ, zero, suc, ◌/◌, ◌%◌, ◌-◌, ◌+◌, ◌<◌, String, ◌≡◌, ◌≢◌, refl, ap, false, ◌||◌, Option, none,
  some, ◌==◌, eqb, if◌then◌else◌, eq-eq-false, Bool-cases, inl, inr,
}
use gradconnect_api.Common.Decimal.{digit_char}
use gradconnect_api.Common.Calendar.{
  zero_date, is_leap, year_of, year_day, month_of, start_of_month, format_date, parse_date,
  days_before_year,
}
use gradconnect_api.Common.Calendar.RoundTrip.{parse_date-format_date}
use gradconnect_api.Common.Quoting.{is_quote, trim_quotes, in_quotes, trim_quotes-in_quotes}

-- `MarshalJSON`: the zero of time.Time is null.
unfoldable pub marshal_date : ℕ → String
unfolding format_date in_quotes
marshal_date date = if eqb date zero_date then "null" else in_quotes (format_date date)

-- `UnmarshalJSON` into a variable that holds `old`: an empty text and null leave it alone.
unfoldable pub unmarshal_date : ℕ → String → Option ℕ
unfolding trim_quotes parse_date
unmarshal_date old text =
    let s = trim_quotes text in if s == "" || s == "null" then some old else parse_date s

digit-no_quote : (n : ℕ) → is_quote (digit_char n) ≡ false
unfolding digit_char
digit-no_quote zero = refl
digit-no_quote (suc zero) = refl
digit-no_quote (suc (suc zero)) = refl
digit-no_quote (suc (suc (suc zero))) = refl
digit-no_quote (suc (suc (suc (suc zero)))) = refl
digit-no_quote (suc (suc (suc (suc (suc zero))))) = refl
digit-no_quote (suc (suc (suc (suc (suc (suc zero)))))) = refl
digit-no_quote (suc (suc (suc (suc (suc (suc (suc zero))))))) = refl
digit-no_quote (suc (suc (suc (suc (suc (suc (suc (suc zero)))))))) = refl
digit-no_quote (suc (suc (suc (suc (suc (suc (suc (suc (suc n))))))))) = refl

trimmed : (date : ℕ) → trim_quotes (in_quotes (format_date date)) ≡ format_date date
unfolding format_date
trimmed date =
    let y = year_of date in
    let n = year_day date in
    let m = month_of (is_leap y) n in
    let d = n - start_of_month (is_leap y) m + 1 in
    let clean = digit-no_quote in
    trim_quotes-in_quotes (digit_char (y / 100 / 10)) _ (clean (y / 100 / 10)) (
      clean (y / 100 % 10),
      (
        clean (y % 100 / 10),
        (
          clean (y % 100 % 10),
          (
            refl,
            (clean (m / 10), (clean (m % 10), (refl, (clean (d / 10), (clean (d % 10), tt))))),
          ),
        ),
      ),
    )

-- A text that is no date is not that of a date.
formatted-ne :
    (date : ℕ) (text : String)
    → date < days_before_year 10000
    → parse_date text ≡ none
    → format_date date ≢ text
formatted-ne date text h wrong same =
    let read = parse_date-format_date date h in cc (ap parse_date same, read, wrong)

-- Every date up to the year 9999 is read back from its JSON text, but for the zero date: its text is null,
-- which leaves what is there.
pub unmarshal_date-marshal_date :
    (old date : ℕ)
    → date < days_before_year 10000
    → unmarshal_date old (marshal_date date) ≡ some (if eqb date zero_date then old else date)
unfolding unmarshal_date marshal_date
unmarshal_date-marshal_date old date h = elim (Bool-cases (eqb date zero_date)) [
  | inl is ↦ rw is (unfold trim_quotes in refl)
  | inr other ↦
      let not_empty : (format_date date == "") ≡ false =
        eq-eq-false (format_date date) "" (formatted-ne date "" h (unfold parse_date in refl)) in
      let not_null : (format_date date == "null") ≡ false =
        eq-eq-false (format_date date) "null"
          (formatted-ne date "null" h (unfold parse_date in refl)) in
      rw (other, trimmed date, not_empty, not_null) (parse_date-format_date date h)
]

no_date : unmarshal_date 0 "\"2023-02-29\"" ≡ none
unfolding unmarshal_date
no_date = refl
