-- ===== src/App/Opportunities.antt =====
-- internal/app/opportunities.go.
pub mod Laws
use gradconnect_api.Common.{String, some, List, [], ◌∷◌, ◌+++◌}
use gradconnect_api.Common.Int.{ℤ, pos}
use gradconnect_api.Common.Calendar.{zero_date}
use gradconnect_api.Validator.{Validator, new, check, ◌▸◌, permitted_value}
use gradconnect_api.Store.{Err, record_not_found, duplicate_opportunity_slug, Env}
use gradconnect_api.Filters.{validate_filters}
use gradconnect_api.Data.Opportunities
use gradconnect_api.Data.Opportunities.{Opportunity, OpportunityFilters}
use gradconnect_api.Data.Opportunities.Validation.{
  CreateOpportunityInput, UpdateOpportunityInput, validate_create_opportunity_input,
  validate_update_opportunity_input,
}
use gradconnect_api.App.Http.{
  Response, Handler, respond, empty, opportunity_data, opportunities_page, Decoded, read_json,
  attempt, error_response, server_error, server_error_response, not_found_response,
  not_found_or_error,
}
use gradconnect_api.App.Queries.{
  Query, read_string, read_int, read_date, read_filters, with_slug, with_id,
}
use gradconnect_api.App.Auth.Steps.{when_valid}

abbrev pub saving_failed : Err → Handler
saving_failed record_not_found w = (not_found_response, w)
saving_failed duplicate_opportunity_slug w =
    (error_response 409 "an opportunity with this slug already exists", w)
saving_failed _ w = (server_error_response, w)

abbrev pub created_response : Opportunity → Response
created_response o = record (respond 201 (opportunity_data o)) {
  location = some ("/api/v1/opportunities/" +++ o.row.slug);
}

abbrev pub opportunity_sorts : List String
opportunity_sorts =
    "deadline" ∷ "opens_at" ∷ "created_at" ∷ "title" ∷ "-deadline" ∷ "-opens_at" ∷ "-created_at"
    ∷ "-title" ∷ []

abbrev pub public_allowed : List String
public_allowed = "open" ∷ "upcoming" ∷ "open_or_upcoming" ∷ []

abbrev pub admin_allowed : List String
admin_allowed = "all" ∷ "open" ∷ "upcoming" ∷ "closed" ∷ "withdrawn" ∷ []

-- The fields of a list request that both lists read, behind the check of its status.
unfoldable pub read_opportunity_filters :
    Query → String → String → ℤ → String → Validator → OpportunityFilters × Validator
unfolding read_string read_int read_date read_filters
read_opportunity_filters qs status employer_slug page_size sort v =
    let (year, v1) = read_int qs "intake_year" (pos 0) v in
    let (until, v2) = read_date qs "deadline_before" zero_date v1 in
    let (since, v3) = read_date qs "deadline_after" zero_date v2 in
    let (filters, v4) = read_filters qs (pos 1) page_size sort opportunity_sorts v3 in
    (
      record {
        search = read_string qs "q" "";
        kind = read_string qs "type" "";
        status = status;
        intake_year = year;
        industry = read_string qs "industry" "";
        location = read_string qs "location" "";
        discipline = read_string qs "discipline" "";
        employer_slug = employer_slug;
        deadline_before = until;
        deadline_after = since;
        filters = filters;
      },
      v4,
    )

module _ ⦃env : Env⦄ where
  unfoldable pub create_opportunity_handler : Decoded CreateOpportunityInput → Handler
  unfolding read_json when_valid attempt
  create_opportunity_handler body = read_json body λ input w.
      when_valid (validate_create_opportunity_input w.year input new)
        (attempt (Opportunities.insert input) saving_failed (λ o w. (created_response o, w))) w

  unfoldable pub show_opportunity_by_id_handler : String → Handler
  unfolding with_id attempt
  show_opportunity_by_id_handler id_param = with_id id_param λ id.
      attempt (Opportunities.get_by_id id) not_found_or_error
        (λ o w. (respond 200 (opportunity_data o), w))

  unfoldable pub update_opportunity_handler : String → Decoded UpdateOpportunityInput → Handler
  unfolding with_id read_json when_valid attempt
  update_opportunity_handler id_param body = with_id id_param λ id. read_json body λ input w.
      when_valid (validate_update_opportunity_input w.year input new)
        (attempt (Opportunities.update id input) saving_failed
          (λ o w. (respond 200 (opportunity_data o), w)))
        w

  unfoldable pub delete_opportunity_handler : String → Handler
  unfolding with_id attempt
  delete_opportunity_handler id_param =
      with_id id_param λ id.
        attempt (Opportunities.delete id) not_found_or_error (λ done w. (respond 204 empty, w))

  unfoldable pub show_opportunity_by_slug_handler : String → Handler
  unfolding with_slug attempt
  show_opportunity_by_slug_handler slug_param = with_slug slug_param λ slug.
      attempt (Opportunities.get_by_slug slug) not_found_or_error
        (λ o w. (respond 200 (opportunity_data o), w))

  unfoldable pub list_page : OpportunityFilters → Validator → Handler
  unfolding when_valid attempt
  list_page input v = when_valid (v ▸ validate_filters input.filters) (
      attempt (Opportunities.get_all input) server_error
        (λ found w. (respond 200 (opportunities_page found.0 found.1), w)))

  -- What everybody may see.
  unfoldable pub list_opportunities_handler : Query → Handler
  unfolding read_string read_opportunity_filters list_page
  list_opportunities_handler qs =
      let status = read_string qs "status" "open_or_upcoming" in
      let (input, v) =
        read_opportunity_filters qs status (read_string qs "employer_slug" "") (pos 20) "deadline" (
          new
          ▸ check (permitted_value status public_allowed) "status"
              "must be one of: open, upcoming, open_or_upcoming") in
      list_page input v

  unfoldable pub list_admin_opportunities_handler : Query → Handler
  unfolding read_string read_opportunity_filters list_page
  list_admin_opportunities_handler qs =
      let status = read_string qs "status" "all" in
      let (input, v) = read_opportunity_filters qs status "" (pos 50) "-created_at" (
        new
        ▸ check (permitted_value status admin_allowed) "status"
            "must be one of: all, open, upcoming, closed, withdrawn") in
      list_page input v
