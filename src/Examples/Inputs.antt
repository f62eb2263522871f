-- ===== src/Examples/Inputs.antt =====
-- The validators, the filters and the permission query at concrete inputs.
use gradconnect_api.Common.{◌≡◌, refl, ◌↔◌, true, false, [], ◌∷◌, codes}
use gradconnect_api.Common.Int.{pos}
use gradconnect_api.Validator.{new, valid, check, permitted_value}
use gradconnect_api.Validator.Rx.{matches, email_rx}
use gradconnect_api.Validator.Rx.Emails.{IsEmail, matches-email_rx_iff}
use gradconnect_api.Filters.{Filters, validate_filters}
use gradconnect_api.Data.Users.Validation.{validate_create_user_input}
use gradconnect_api.Data.Users.Validation.Laws.{IsAcceptable, validate_create_user_input_iff}
use gradconnect_api.Examples.Auth.{registration}

an_address : matches "alice@example.org" email_rx ≡ true
unfolding matches email_rx
an_address = refl

no_address : matches "alice@@example.org" email_rx ≡ false
unfolding matches email_rx
no_address = refl

matches-email_rx_iff_example :
    (matches "alice@example.org" email_rx ≡ true) ↔ IsEmail (codes "alice@example.org")
matches-email_rx_iff_example = matches-email_rx_iff "alice@example.org"

validate_create_user_input_iff_example :
    (valid (validate_create_user_input 2026 registration new) ≡ true)
    ↔ IsAcceptable 2026 registration
validate_create_user_input_iff_example = validate_create_user_input_iff 2026 registration

abbrev newest_first : Filters
newest_first = record {
  page = pos 2;
  page_size = pos 20;
  sort = "-created_at";
  sort_safe_list = "created_at" ∷ "-created_at" ∷ [];
}

accepted : valid (validate_filters newest_first new) ≡ true
unfolding validate_filters valid check permitted_value
accepted = refl
