-- ===== src/App/Employers.antt =====
-- internal/app/employers.go.
use gradconnect_api.Common.{String, none, some, List, [], ◌∷◌, ◌+++◌}
use gradconnect_api.Common.Int.{pos}
use gradconnect_api.Validator.{new, ◌▸◌}
use gradconnect_api.Store.{Err, record_not_found, edit_conflict, duplicate_employer_slug, Env}
use gradconnect_api.Store.Content.{Employer}
use gradconnect_api.Filters.{validate_filters}
use gradconnect_api.Data.Employers
use gradconnect_api.Data.Employers.Validation.{
  CreateEmployerInput, UpdateEmployerInput, validate_create_employer_input,
  validate_update_employer_input,
}
use gradconnect_api.App.Http.{
  Response, Handler, respond, empty, employer_data, employers_page, Decoded, read_json, attempt,
  error_response, failed_validation_response, server_error, server_error_response,
  not_found_response, not_found_or_error,
}
use gradconnect_api.App.Queries.{Query, read_string, read_bool, read_filters, with_id}
use gradconnect_api.App.Auth.Steps.{when_valid}

-- `v.AddError("slug", …)` on a validator that is still valid
abbrev pub slug_taken : Response
slug_taken = failed_validation_response (("slug", "an employer with this slug already exists") ∷ [])

abbrev pub creation_failed : Err → Handler
creation_failed duplicate_employer_slug w = (slug_taken, w)
creation_failed _ w = (server_error_response, w)

abbrev pub update_failed : Err → Handler
update_failed record_not_found w = (not_found_response, w)
update_failed edit_conflict w = (error_response 409 "edit conflict, please retry", w)
update_failed duplicate_employer_slug w = (slug_taken, w)
update_failed _ w = (server_error_response, w)

abbrev pub created_response : Employer → Response
created_response e = record (respond 201 (employer_data e)) {
  location = some ("/api/v1/employers/" +++ e.slug);
}

abbrev pub employer_sorts : List String
employer_sorts = "name" ∷ "created_at" ∷ "-name" ∷ "-created_at" ∷ []

module _ ⦃env : Env⦄ where
  unfoldable pub create_employer_handler : Decoded CreateEmployerInput → Handler
  unfolding read_json when_valid attempt
  create_employer_handler body = read_json body λ input.
      when_valid (validate_create_employer_input input new)
        (attempt (Employers.insert input) creation_failed (λ e w. (created_response e, w)))

  unfoldable pub show_employer_by_slug_handler : String → Handler
  unfolding attempt
  show_employer_by_slug_handler slug =
      attempt (Employers.get_by_slug slug) not_found_or_error
        (λ e w. (respond 200 (employer_data e), w))

  unfoldable pub show_employer_by_id_handler : String → Handler
  unfolding with_id attempt
  show_employer_by_id_handler id_param = with_id id_param λ id.
      attempt (Employers.get_by_id id) not_found_or_error
        (λ e w. (respond 200 (employer_data e), w))

  unfoldable pub update_employer_handler : String → Decoded UpdateEmployerInput → Handler
  unfolding with_id read_json when_valid attempt
  update_employer_handler id_param body = with_id id_param λ id. read_json body λ input.
      when_valid (validate_update_employer_input input new) (
        attempt (Employers.update id input) update_failed
          (λ e w. (respond 200 (employer_data e), w)))

  unfoldable pub delete_employer_handler : String → Handler
  unfolding with_id attempt
  delete_employer_handler id_param =
      with_id id_param
        λ id. attempt (Employers.delete id) not_found_or_error (λ done w. (respond 204 empty, w))

  unfoldable pub list_employers_handler : Query → Handler
  unfolding read_string read_bool read_filters when_valid attempt
  list_employers_handler qs =
      let (filters, v) = read_filters qs (pos 1) (pos 20) "name" employer_sorts new in
      when_valid (v ▸ validate_filters filters) (
        attempt
          (Employers.get_all (read_string qs "q" "") (read_string qs "industry" "")
            (read_bool qs "is_verified" none) filters)
          server_error (λ found w. (respond 200 (employers_page found.0 found.1), w)))
