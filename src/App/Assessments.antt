-- ===== src/App/Assessments.antt =====
-- internal/app/assessments.go.
use gradconnect_api.Common.{String, List, [], ◌∷◌, ◌==◌, if◌then◌else◌}
use gradconnect_api.Common.Int.{pos}
use gradconnect_api.Validator.{Validator, new, check, ◌▸◌}
use gradconnect_api.Store.{Err, record_not_found, edit_conflict, Env}
use gradconnect_api.Filters.{validate_filters}
use gradconnect_api.Data.Assessments
use gradconnect_api.Data.Assessments.Validation.{
  CreateAssessmentInput, UpdateAssessmentInput, validate_create_assessment_input,
  validate_update_assessment_input,
}
use gradconnect_api.App.Http.{
  Handler, respond, assessment_data, assessments_page, Decoded, read_json, attempt, error_response,
  server_error, server_error_response, not_found_response, not_found_or_error,
}
use gradconnect_api.App.Queries.{Query, read_string, read_filters, with_id, with_slug}
use gradconnect_api.App.Auth.Steps.{when_valid}

abbrev pub revision_failed : Err → Handler
revision_failed record_not_found w = (not_found_response, w)
revision_failed edit_conflict w =
    (error_response 409 "version mismatch, please refresh and retry", w)
revision_failed _ w = (server_error_response, w)

abbrev pub assessment_sorts : List String
assessment_sorts = "programme_type" ∷ "updated_at" ∷ "-programme_type" ∷ "-updated_at" ∷ []

abbrev pub admin_assessment_sorts : List String
admin_assessment_sorts =
    "programme_type" ∷ "created_at" ∷ "updated_at" ∷ "-programme_type" ∷ "-created_at"
    ∷ "-updated_at" ∷ []

module _ ⦃env : Env⦄ where
  unfoldable pub create_assessment_handler : Decoded CreateAssessmentInput → Handler
  unfolding read_json when_valid attempt
  create_assessment_handler body = read_json body λ input.
      when_valid (validate_create_assessment_input input new) (
        attempt (Assessments.insert input) not_found_or_error
          (λ a w. (respond 201 (assessment_data a), w)))

  unfoldable pub update_assessment_handler : String → Decoded UpdateAssessmentInput → Handler
  unfolding with_id read_json when_valid attempt
  update_assessment_handler id_param body = with_id id_param λ id. read_json body λ input.
      when_valid (validate_update_assessment_input input new) (
        attempt (Assessments.update id input) revision_failed
          (λ a w. (respond 200 (assessment_data a), w)))

  unfoldable pub list_assessments_handler : String → Query → Handler
  unfolding with_slug read_filters when_valid attempt
  list_assessments_handler slug_param qs = with_slug slug_param λ slug.
      let (filters, v) = read_filters qs (pos 1) (pos 20) "programme_type" assessment_sorts new in
      when_valid (v ▸ validate_filters filters) (
        attempt (Assessments.get_all_by_employer_slug slug filters) server_error
          (λ found w. (respond 200 (assessments_page found.0 found.1), w)))

  unfoldable pub show_admin_assessment_handler : String → Handler
  unfolding with_id attempt
  show_admin_assessment_handler id_param = with_id id_param λ id.
      attempt (Assessments.get_by_id id) not_found_or_error
        (λ a w. (respond 200 (assessment_data a), w))

  abbrev pub check_employer_id : String → Validator → Validator
  check_employer_id employer_id v =
      if employer_id == ""
      then v
      else (v ▸ check (env.is_uuid employer_id) "employer_id" "must be a valid UUID")

  unfoldable pub list_admin_assessments_handler : Query → Handler
  unfolding read_string read_filters when_valid attempt
  list_admin_assessments_handler qs =
      let employer_id = read_string qs "employer_id" "" in
      let (filters, v) =
        read_filters qs (pos 1) (pos 50) "-updated_at" admin_assessment_sorts new in
      when_valid (v ▸ check_employer_id employer_id ▸ validate_filters filters) (
        attempt (Assessments.get_all (read_string qs "q" "") employer_id filters) server_error
          (λ found w. (respond 200 (assessments_page found.0 found.1), w)))
