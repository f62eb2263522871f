-- ===== src/Data/Assessments/Validation.antt =====
-- internal/data/assessments.go: the inputs and their validators.
use gradconnect_api.Common.{
  ℕ, suc, String, Bool, false, not, Option, none, some, List, [], ◌∷◌, ◌==◌, ◌+++◌, leb, len,
  length, if◌then◌else◌,
}
use gradconnect_api.Common.Int.{ℤ, pos, ltbℤ, lebℤ}
use gradconnect_api.Common.Decimal.{decimal}
use gradconnect_api.Validator.{Validator, check, add_error, ◌▸◌}
use gradconnect_api.Store.{Env}
use gradconnect_api.Data.Users.Validation.{when_some}

-- What json.Unmarshal reads of one stage: the two texts, if there, and whether its order is a number.
pub record Stage : Type 0 where
  pub stage_name : Option String
  pub stage_type : Option String
  pub has_order : Bool

-- A json.RawMessage, and the list of stages that it reads as.
pub record Stages : Type 0 where
  pub raw : String
  pub stages : Option (List Stage)

pub record CreateAssessmentInput : Type 0 where
  pub employer_id : String
  pub programme_type : String
  pub stages : Stages
  pub aptitude_test_provider : Option String
  pub interview_format : Option String
  pub timeline_weeks : Option ℤ
  pub prep_guide : Option String

pub record UpdateAssessmentInput : Type 0 where
  pub programme_type : Option String
  pub stages : Stages
  pub aptitude_test_provider : Option String
  pub interview_format : Option String
  pub timeline_weeks : Option ℤ
  pub prep_guide : Option String

abbrev pub is_given : Option String → Bool
is_given none = false
is_given (some text) = not (text == "")

abbrev pub stage_key : ℕ → String → String
stage_key i field = "stages[" +++ decimal i +++ "]." +++ field

unfoldable pub validate_each_stage : ℕ → List Stage → Validator → Validator
unfolding decimal
validate_each_stage i [] v = v
validate_each_stage i (stage ∷ rest) v = validate_each_stage (suc i) rest (
    v
    ▸ check (is_given stage.stage_name) (stage_key i "stage_name") "must be provided"
    ▸ check (is_given stage.stage_type) (stage_key i "stage_type") "must be provided"
    ▸ check stage.has_order (stage_key i "order") "must be a number")

abbrev pub validate_stage_list : Option (List Stage) → Validator → Validator
validate_stage_list none v = add_error "stages" "must be a valid JSON array" v
validate_stage_list (some stages) v =
    v
    ▸ check (leb 1 (length stages)) "stages" "must contain at least one stage"
    ▸ check (leb (length stages) 8) "stages" "must not contain more than 8 stages"
    ▸ validate_each_stage 0 stages

-- `validateStages`
unfoldable pub validate_assessment_stages : Stages → Validator → Validator
unfolding validate_each_stage
validate_assessment_stages s v =
    if s.raw == "" then add_error "stages" "must be provided" v else validate_stage_list s.stages v

abbrev pub validate_weeks : ℤ → Validator → Validator
validate_weeks weeks v =
    v
    ▸ check (ltbℤ (pos 0) weeks) "timeline_weeks" "must be a positive number"
    ▸ check (lebℤ weeks (pos 52)) "timeline_weeks" "must not be more than 52"

abbrev pub validate_provider : String → Validator → Validator
validate_provider text =
    check (leb (len text) 100) "aptitude_test_provider" "must not be more than 100 characters"

abbrev pub validate_format : String → Validator → Validator
validate_format text =
    check (leb (len text) 255) "interview_format" "must not be more than 255 characters"

abbrev pub validate_guide : String → Validator → Validator
validate_guide text =
    check (leb (len text) 10000) "prep_guide" "must not be more than 10000 characters"

abbrev pub programme_length : String → Validator → Validator
programme_length text =
    check (leb (len text) 100) "programme_type" "must not be more than 100 characters"

unfoldable pub validate_create_assessment_input :
    ⦃env : Env⦄ → CreateAssessmentInput → Validator → Validator
unfolding validate_assessment_stages
validate_create_assessment_input ⦃env⦄ input v =
    v
    ▸ check (env.is_uuid input.employer_id) "employer_id" "must be a valid UUID"
    ▸ check (not (input.programme_type == "")) "programme_type" "must be provided"
    ▸ programme_length input.programme_type
    ▸ validate_assessment_stages input.stages
    ▸ when_some input.timeline_weeks validate_weeks
    ▸ when_some input.aptitude_test_provider validate_provider
    ▸ when_some input.interview_format validate_format
    ▸ when_some input.prep_guide validate_guide

abbrev pub validate_programme : String → Validator → Validator
validate_programme text v =
    v ▸ check (not (text == "")) "programme_type" "must not be empty" ▸ programme_length text

abbrev pub when_stages : Stages → Validator → Validator
when_stages s v = if s.raw == "" then v else validate_assessment_stages s v

unfoldable pub validate_update_assessment_input : UpdateAssessmentInput → Validator → Validator
unfolding validate_assessment_stages
validate_update_assessment_input input v =
    v
    ▸ when_some input.programme_type validate_programme
    ▸ when_stages input.stages
    ▸ when_some input.timeline_weeks validate_weeks
    ▸ when_some input.aptitude_test_provider validate_provider
    ▸ when_some input.interview_format validate_format
    ▸ when_some input.prep_guide validate_guide
