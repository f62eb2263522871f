-- ===== src/Data/Reviews/Validation.antt =====
-- internal/data/reviews.go: the inputs of the review endpoints and their validators. `year` is what
-- time.Now().Year() returns.
use gradconnect_api.Common.{
  ℕ, suc, String, Bool, false, not, ◌&&◌, Option, none, some, List, [], ◌∷◌, ◌==◌, ◌+++◌, leb, len,
  length, if◌then◌else◌,
}
use gradconnect_api.Common.Int.{ℤ, pos, lebℤ}
use gradconnect_api.Common.Decimal.{decimal}
use gradconnect_api.Validator.{Validator, check, add_error, ◌▸◌, permitted_value}
use gradconnect_api.Store.{Env}
use gradconnect_api.Data.Users.Validation.{when_some, at_most_255}

-- A json.RawMessage, and what json.Unmarshal reads of it as a list of objects: of each object the
-- text under stage_name, if there is one.
pub record StageBreakdown : Type 0 where
  pub raw : String
  pub stages : Option (List (Option String))

pub record CreateReviewInput : Type 0 where
  pub employer_id : String
  pub programme_name : String
  pub application_year : ℤ
  pub outcome : String
  pub stage_breakdown : StageBreakdown
  pub difficulty_rating : ℤ
  pub experience_rating : ℤ
  pub tips : Option String
  pub degree_discipline : Option String
  pub university : Option String

pub record UpdateReviewInput : Type 0 where
  pub programme_name : Option String
  pub application_year : Option ℤ
  pub outcome : Option String
  pub stage_breakdown : StageBreakdown
  pub difficulty_rating : Option ℤ
  pub experience_rating : Option ℤ
  pub tips : Option String
  pub degree_discipline : Option String
  pub university : Option String

pub record ModerateReviewInput : Type 0 where
  pub status : String

abbrev pub permitted_review_outcomes : List String
permitted_review_outcomes = "offer" ∷ "waitlisted" ∷ "rejected" ∷ "withdrew" ∷ []

abbrev pub permitted_moderation_statuses : List String
permitted_moderation_statuses = "approved" ∷ "rejected" ∷ []

abbrev pub permitted_review_list_statuses : List String
permitted_review_list_statuses = "pending" ∷ "approved" ∷ "rejected" ∷ []

abbrev pub has_name : Option String → Bool
has_name none = false
has_name (some name) = not (name == "")

unfoldable pub validate_stage_names : ℕ → List (Option String) → Validator → Validator
unfolding decimal
validate_stage_names i [] v = v
validate_stage_names i (name ∷ rest) v = validate_stage_names (suc i) rest (
    v
    ▸ check (has_name name) ("stage_breakdown[" +++ decimal i +++ "].stage_name")
        "must be provided")

abbrev pub validate_stages : Option (List (Option String)) → Validator → Validator
validate_stages none v = add_error "stage_breakdown" "must be a valid JSON array" v
validate_stages (some stages) v =
    v
    ▸ check (leb 1 (length stages)) "stage_breakdown" "must contain at least one stage"
    ▸ check (leb (length stages) 10) "stage_breakdown" "must not contain more than 10 stages"
    ▸ validate_stage_names 0 stages

unfoldable pub validate_stage_breakdown : StageBreakdown → Validator → Validator
unfolding validate_stage_names
validate_stage_breakdown b v =
    if b.raw == ""
    then add_error "stage_breakdown" "must be provided" v
    else validate_stages b.stages v

abbrev pub validate_application_year : ℕ → ℤ → Validator → Validator
validate_application_year year y v =
    v
    ▸ check (lebℤ (pos 2015) y) "application_year" "must not be before 2015"
    ▸ check (lebℤ y (pos year)) "application_year" "must not be in the future"

abbrev pub validate_outcome : String → Validator → Validator
validate_outcome outcome =
    check (permitted_value outcome permitted_review_outcomes) "outcome"
      "must be one of: offer, waitlisted, rejected, withdrew"

abbrev pub validate_rating : String → ℤ → Validator → Validator
validate_rating key rating =
    check (lebℤ (pos 1) rating && lebℤ rating (pos 5)) key "must be between 1 and 5"

abbrev pub validate_tips : String → Validator → Validator
validate_tips tips = check (leb (len tips) 5000) "tips" "must not be more than 5000 characters"

module _ ⦃env : Env⦄ where
  unfoldable pub validate_create_review_input : ℕ → CreateReviewInput → Validator → Validator
  unfolding validate_stage_breakdown
  validate_create_review_input year input v =
      v
      ▸ check (env.is_uuid input.employer_id) "employer_id" "must be a valid UUID"
      ▸ check (not (input.programme_name == "")) "programme_name" "must be provided"
      ▸ at_most_255 "programme_name" input.programme_name
      ▸ validate_application_year year input.application_year
      ▸ validate_outcome input.outcome
      ▸ validate_rating "difficulty_rating" input.difficulty_rating
      ▸ validate_rating "experience_rating" input.experience_rating
      ▸ validate_stage_breakdown input.stage_breakdown
      ▸ when_some input.tips validate_tips
      ▸ when_some input.degree_discipline (at_most_255 "degree_discipline")
      ▸ when_some input.university (at_most_255 "university")

abbrev pub validate_programme_name : String → Validator → Validator
validate_programme_name name v =
    v
    ▸ check (not (name == "")) "programme_name" "must not be empty"
    ▸ at_most_255 "programme_name" name

unfoldable pub validate_update_review_input : ℕ → UpdateReviewInput → Validator → Validator
unfolding validate_stage_breakdown
validate_update_review_input year input v =
    v
    ▸ when_some input.programme_name validate_programme_name
    ▸ when_some input.application_year (validate_application_year year)
    ▸ when_some input.outcome validate_outcome
    ▸ when_some input.difficulty_rating (validate_rating "difficulty_rating")
    ▸ when_some input.experience_rating (validate_rating "experience_rating")
    ▸ (λ u.
        if input.stage_breakdown.raw == ""
        then u
        else validate_stage_breakdown input.stage_breakdown u)
    ▸ when_some input.tips validate_tips
    ▸ when_some input.degree_discipline (at_most_255 "degree_discipline")
    ▸ when_some input.university (at_most_255 "university")

unfoldable pub validate_moderate_review_input : ModerateReviewInput → Validator → Validator
validate_moderate_review_input input v =
    v
    ▸ check (not (input.status == "")) "status" "must be provided"
    ▸ check (permitted_value input.status permitted_moderation_statuses) "status"
        "must be one of: approved, rejected"

unfoldable pub validate_review_status_filter : String → Validator → Validator
validate_review_status_filter status =
    check (permitted_value status permitted_review_list_statuses) "status"
      "must be one of: pending, approved, rejected"
