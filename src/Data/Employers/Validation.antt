-- ===== src/Data/Employers/Validation.antt =====
-- internal/data/employers.go: the inputs of the employer endpoints and their validators. A JSON column is
-- its raw text, "" if the field is missing.
use gradconnect_api.Common.{String, Bool, not, Option, ◌==◌, leb, len}
use gradconnect_api.Validator.{Validator, check, ◌▸◌}
use gradconnect_api.Validator.Rx.{matches, slug_rx}
use gradconnect_api.Data.Users.Validation.{when_some, at_most_255}

pub record CreateEmployerInput : Type 0 where
  pub name : String
  pub slug : String
  pub industry : String
  pub size : Option String
  pub hq_location : Option String
  pub offices : String
  pub logo_url : Option String
  pub overview : Option String
  pub culture : Option String
  pub website : Option String
  pub social_links : String
  pub is_verified : Bool

pub record UpdateEmployerInput : Type 0 where
  pub name : Option String
  pub slug : Option String
  pub industry : Option String
  pub size : Option String
  pub hq_location : Option String
  pub offices : String
  pub logo_url : Option String
  pub overview : Option String
  pub culture : Option String
  pub website : Option String
  pub social_links : String
  pub is_verified : Option Bool

abbrev pub at_most_100 : String → String → Validator → Validator
at_most_100 key s = check (leb (len s) 100) key "must not be more than 100 characters"

abbrev pub at_most_50 : String → String → Validator → Validator
at_most_50 key s = check (leb (len s) 50) key "must not be more than 50 characters"

abbrev pub at_most_512 : String → String → Validator → Validator
at_most_512 key s = check (leb (len s) 512) key "must not be more than 512 characters"

abbrev pub validate_slug : String → String → Validator → Validator
validate_slug message slug v =
    v
    ▸ check (not (slug == "")) "slug" message
    ▸ at_most_255 "slug" slug
    ▸ check (matches slug slug_rx) "slug"
        "must contain only lowercase letters, numbers, and hyphens"

unfoldable pub validate_create_employer_input : CreateEmployerInput → Validator → Validator
validate_create_employer_input input v =
    v
    ▸ check (not (input.name == "")) "name" "must be provided"
    ▸ at_most_255 "name" input.name
    ▸ validate_slug "must be provided" input.slug
    ▸ check (not (input.industry == "")) "industry" "must be provided"
    ▸ at_most_100 "industry" input.industry
    ▸ when_some input.size (at_most_50 "size")
    ▸ when_some input.hq_location (at_most_255 "hq_location")
    ▸ when_some input.logo_url (at_most_512 "logo_url")
    ▸ when_some input.website (at_most_512 "website")

abbrev pub validate_name : String → Validator → Validator
validate_name s v = v ▸ check (not (s == "")) "name" "must not be empty" ▸ at_most_255 "name" s

abbrev pub validate_industry : String → Validator → Validator
validate_industry s v =
    v ▸ check (not (s == "")) "industry" "must not be empty" ▸ at_most_100 "industry" s

unfoldable pub validate_update_employer_input : UpdateEmployerInput → Validator → Validator
validate_update_employer_input input v =
    v
    ▸ when_some input.name validate_name
    ▸ when_some input.slug (validate_slug "must not be empty")
    ▸ when_some input.industry validate_industry
    ▸ when_some input.size (at_most_50 "size")
    ▸ when_some input.hq_location (at_most_255 "hq_location")
    ▸ when_some input.logo_url (at_most_512 "logo_url")
    ▸ when_some input.website (at_most_512 "website")
