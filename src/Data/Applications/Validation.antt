-- ===== src/Data/Applications/Validation.antt =====
-- internal/data/applications.go: the statuses of a tracked application, the inputs and their validators.
use gradconnect_api.Common.{
  String, not, ◌||◌, Option, List, [], ◌∷◌, ◌==◌, leb, len, is_some, if◌then◌else◌,
}
use gradconnect_api.Validator.{Validator, check, ◌▸◌, permitted_value}
use gradconnect_api.Data.Users.Validation.{when_some}

pub record CreateApplicationInput : Type 0 where
  pub opportunity_id : String
  pub status : String
  pub notes : Option String

pub record UpdateApplicationInput : Type 0 where
  pub status : Option String
  pub notes : Option String

abbrev pub permitted_statuses : List String
permitted_statuses =
    "interested" ∷ "applied" ∷ "assessment" ∷ "interview" ∷ "offer" ∷ "rejected" ∷ []

abbrev pub validate_notes : String → Validator → Validator
validate_notes notes = check (leb (len notes) 5000) "notes" "must not be more than 5000 characters"

abbrev pub validate_status : String → Validator → Validator
validate_status status = check (permitted_value status permitted_statuses) "status" "invalid status"

unfoldable pub validate_create_application_input : CreateApplicationInput → Validator → Validator
validate_create_application_input input v =
    v
    ▸ check (not (input.opportunity_id == "")) "opportunity_id" "must be provided"
    ▸ check (not (input.status == "")) "status" "must be provided"
    ▸ validate_status input.status
    ▸ when_some input.notes validate_notes

unfoldable pub validate_update_application_input : UpdateApplicationInput → Validator → Validator
validate_update_application_input input v =
    v
    ▸ when_some input.status validate_status
    ▸ when_some input.notes validate_notes
    ▸ check (is_some input.status || is_some input.notes) "body"
        "at least one field must be provided"

unfoldable pub validate_application_status_filter : String → Validator → Validator
validate_application_status_filter status v = if status == "" then v else validate_status status v
