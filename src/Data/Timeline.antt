-- ===== src/Data/Timeline.antt =====
-- internal/data/timeline.go: a number of weeks as JSON text.
use gradconnect_api.Common.{
  ℕ, ◌≤◌, String, ◌≡◌, refl, Option, none, some, List, [], ◌∷◌, ◌==◌, if◌then◌else◌,
}
use gradconnect_api.Common.Quoting.{quote, unquote, unquote-quote}
use gradconnect_api.Common.Int.{ℤ, pos, pos_part, neg_part}
use gradconnect_api.Common.Decimal.{print, split_spaces, decimalℤ, parse_int}
use gradconnect_api.Common.Decimal.RoundTrip.{split-print, parse_int-decimalℤ}

abbrev pub max_int32 : ℕ
max_int32 = 2147483647

-- `Timeline`, an int32
abbrev pub IsTimeline : ℤ → Type 0
IsTimeline t = (pos_part t ≤ max_int32) × (neg_part t ≤ 2147483648)

-- `MarshalJSON`: `fmt.Sprintf("%d weeks", t)`, quoted
unfoldable pub marshal_timeline : ℤ → String
unfolding print quote
marshal_timeline t = quote (print t " weeks")

abbrev weeks_of : List String → Option ℤ
weeks_of (number ∷ unit ∷ []) =
    if unit == "weeks" then parse_int max_int32 2147483648 number else none
weeks_of _ = none

abbrev weeks_of_text : Option String → Option ℤ
weeks_of_text none = none
weeks_of_text (some text) = weeks_of (split_spaces text)

-- `UnmarshalJSON`; `none` is ErrInvalidTimelineFormat.
unfoldable pub unmarshal_timeline : String → Option ℤ
unfolding unquote split_spaces parse_int
unmarshal_timeline text = weeks_of_text (unquote text)

-- Every timeline is read back from its JSON text.
pub unmarshal_timeline-marshal_timeline :
    (t : ℤ) → IsTimeline t → unmarshal_timeline (marshal_timeline t) ≡ some t
unfolding unmarshal_timeline marshal_timeline
unmarshal_timeline-marshal_timeline t (high, low) =
    let parts : split_spaces (print t " weeks") ≡ print t "" ∷ "weeks" ∷ [] =
      split-print t " weeks" "" ("weeks" ∷ []) (unfold split_spaces in refl) in
    rw (unquote-quote (print t " weeks"), parts)
      (unfold decimalℤ in parse_int-decimalℤ max_int32 2147483648 t high low)

without_unit : unmarshal_timeline "\"12\"" ≡ none
unfolding unmarshal_timeline
without_unit = refl

too_large : unmarshal_timeline "\"2147483648 weeks\"" ≡ none
unfolding unmarshal_timeline
too_large = refl

unquoted : unmarshal_timeline "12 weeks" ≡ none
unfolding unmarshal_timeline
unquoted = refl

twelve_weeks : unmarshal_timeline "\"\\u00312 weeks\"" ≡ some (pos 12)
unfolding unmarshal_timeline
twelve_weeks = refl
