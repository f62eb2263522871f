-- ===== src/Data/Users/Validation.antt =====
-- internal/data/users.go: the inputs of the account endpoints and their validators. `year` is what
-- time.Now().Year() returns. JSON is decoded before: a field is its decoded value.
pub mod Laws
use gradconnect_api.Common.{
  ℕ, ◌+◌, String, Bool, true, not, Option, none, some, List, ◌==◌, leb, len, length, if◌then◌else◌,
}
use gradconnect_api.Common.Int.{ℤ, pos, lebℤ}
use gradconnect_api.Validator.{Validator, check, ◌▸◌}
use gradconnect_api.Validator.Rx.{matches, email_rx}

pub record CreateUserInput : Type 0 where
  pub first_name : String
  pub last_name : String
  pub email : String
  pub password : String
  pub degree_discipline : Option String
  pub graduation_year : Option ℤ
  pub target_industries : List String
  pub preferred_locations : List String
  pub preferences : String

pub record LoginUserInput : Type 0 where
  pub email : String
  pub password : String

pub record UpdateUserInput : Type 0 where
  pub first_name : Option String
  pub last_name : Option String
  pub degree_discipline : Option String
  pub graduation_year : Option ℤ
  pub target_industries : Option (List String)
  pub preferred_locations : Option (List String)
  pub preferences : Option String

pub record ChangePasswordInput : Type 0 where
  pub current_password : String
  pub new_password : String
  pub new_password_confirm : String

pub record ResetPasswordInput : Type 0 where
  pub token : String
  pub new_password : String

-- `if input.F != nil { … }`
abbrev pub when_some : {A : Type 0} → Option A → (A → Validator → Validator) → Validator → Validator
when_some none f v = v
when_some (some a) f v = f a v

abbrev pub at_most_255 : String → String → Validator → Validator
at_most_255 key s = check (leb (len s) 255) key "must not be more than 255 characters"

unfoldable pub validate_email : String → Validator → Validator
validate_email email v =
    v
    ▸ check (not (email == "")) "email" "must be provided"
    ▸ check (matches email email_rx) "email" "must be a valid email address"

unfoldable pub validate_password_plaintext : String → Validator → Validator
validate_password_plaintext password v =
    v
    ▸ check (not (password == "")) "password" "must be provided"
    ▸ check (leb 8 (len password)) "password" "must be at least 8 bytes long"
    ▸ check (leb (len password) 72) "password" "must not be more than 72 bytes long"

abbrev pub validate_graduation_year : ℕ → ℤ → Validator → Validator
validate_graduation_year year y v =
    v
    ▸ check (lebℤ (pos 1990) y) "graduation_year" "must be after 1990"
    ▸ check (lebℤ y (pos (year + 6))) "graduation_year"
        "must not be more than 6 years in the future"

abbrev pub validate_industries : List String → Validator → Validator
validate_industries xs =
    check (leb (length xs) 20) "target_industries" "must not have more than 20 industries"

abbrev pub validate_locations : List String → Validator → Validator
validate_locations xs =
    check (leb (length xs) 20) "preferred_locations" "must not have more than 20 locations"

unfoldable pub validate_create_user_input : ℕ → CreateUserInput → Validator → Validator
validate_create_user_input year input v =
    v
    ▸ check (not (input.first_name == "")) "first_name" "must be provided"
    ▸ check (not (input.last_name == "")) "last_name" "must be provided"
    ▸ at_most_255 "first_name" input.first_name
    ▸ at_most_255 "last_name" input.last_name
    ▸ validate_email input.email
    ▸ validate_password_plaintext input.password
    ▸ when_some input.graduation_year (validate_graduation_year year)
    ▸ when_some input.degree_discipline (at_most_255 "degree_discipline")
    ▸ validate_industries input.target_industries
    ▸ validate_locations input.preferred_locations

-- A name of an update: not empty, not too long.
abbrev pub validate_name : String → String → Validator → Validator
validate_name key s v = v ▸ check (not (s == "")) key "must not be empty" ▸ at_most_255 key s

unfoldable pub validate_update_user_input : ℕ → UpdateUserInput → Validator → Validator
validate_update_user_input year input v =
    v
    ▸ when_some input.first_name (validate_name "first_name")
    ▸ when_some input.last_name (validate_name "last_name")
    ▸ when_some input.graduation_year (validate_graduation_year year)
    ▸ when_some input.degree_discipline (at_most_255 "degree_discipline")
    ▸ when_some input.target_industries validate_industries
    ▸ when_some input.preferred_locations validate_locations

unfoldable pub validate_login_user_input : LoginUserInput → Validator → Validator
unfolding validate_email validate_password_plaintext
validate_login_user_input user v =
    v ▸ validate_email user.email ▸ validate_password_plaintext user.password

unfoldable pub validate_change_password_input : ChangePasswordInput → Validator → Validator
unfolding validate_password_plaintext
validate_change_password_input input v =
    v
    ▸ check (not (input.current_password == "")) "current_password" "must be provided"
    ▸ validate_password_plaintext input.new_password
    ▸ check (input.new_password == input.new_password_confirm) "new_password_confirm"
        "passwords must match"
    ▸ check (not (input.new_password == input.current_password)) "new_password"
        "must be different from current password"
