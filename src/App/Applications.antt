-- ===== src/App/Applications.antt =====
-- internal/app/applications.go and bookmarks.go: what a user keeps of the opportunities.
use gradconnect_api.Common.{String, not, List, [], ◌∷◌, ◌==◌}
use gradconnect_api.Common.Int.{pos}
use gradconnect_api.Validator.{new, check, ◌▸◌}
use gradconnect_api.Store.{Err, duplicate_application, duplicate_bookmark, record_not_found, Env}
use gradconnect_api.Store.Content.{BookmarkRow}
use gradconnect_api.Filters.{validate_filters}
use gradconnect_api.Data.Applications
use gradconnect_api.Data.Bookmarks
use gradconnect_api.Data.Applications.Validation.{
  CreateApplicationInput, UpdateApplicationInput, validate_create_application_input,
  validate_update_application_input, validate_application_status_filter,
}
use gradconnect_api.App.Http.{
  Response, Handler, respond, empty, application_data, applications_page, bookmark_created_data,
  bookmarks_page, Decoded, read_json, attempt, error_response, server_error, server_error_response,
  not_found_response, not_found_or_error, Principal, context_user,
}
use gradconnect_api.App.Queries.{Query, read_string, read_filters, with_id}
use gradconnect_api.App.Auth.Steps.{when_valid}

abbrev pub tracking_failed : Err → Handler
tracking_failed record_not_found w = (not_found_response, w)
tracking_failed duplicate_application w =
    (error_response 409 "you are already tracking this opportunity", w)
tracking_failed _ w = (server_error_response, w)

abbrev pub bookmark_failed : Err → Handler
bookmark_failed record_not_found w = (not_found_response, w)
bookmark_failed duplicate_bookmark w =
    (error_response 409 "you have already bookmarked this opportunity", w)
bookmark_failed _ w = (server_error_response, w)

pub record AddBookmarkInput : Type 0 where
  pub opportunity_id : String

abbrev pub application_sorts : List String
application_sorts = "updated_at" ∷ "created_at" ∷ "-updated_at" ∷ "-created_at" ∷ []

abbrev pub bookmark_sorts : List String
bookmark_sorts = "created_at" ∷ "deadline" ∷ "-created_at" ∷ "-deadline" ∷ []

module _ ⦃env : Env⦄ where
  unfoldable pub add_application_handler : Principal → Decoded CreateApplicationInput → Handler
  unfolding read_json when_valid attempt
  add_application_handler p body = read_json body λ input.
      when_valid (validate_create_application_input input new) (
        attempt (Applications.add (context_user p).id input) tracking_failed
          (λ t w. (respond 201 (application_data t), w)))

  unfoldable pub update_application_handler :
      Principal → String → Decoded UpdateApplicationInput → Handler
  unfolding with_id read_json when_valid attempt
  update_application_handler p id body = with_id id λ tracker_id. read_json body λ input.
      when_valid (validate_update_application_input input new) (
        attempt (Applications.update (context_user p).id tracker_id input) not_found_or_error
          (λ t w. (respond 200 (application_data t), w)))

  unfoldable pub remove_application_handler : Principal → String → Handler
  unfolding with_id attempt
  remove_application_handler p id = with_id id λ tracker_id.
      attempt (Applications.remove (context_user p).id tracker_id) not_found_or_error
        (λ done w. (respond 204 empty, w))

  unfoldable pub list_applications_handler : Principal → Query → Handler
  unfolding read_string read_filters when_valid attempt
  list_applications_handler p qs =
      let status = read_string qs "status" "" in
      let (filters, v) = read_filters qs (pos 1) (pos 50) "-updated_at" application_sorts new in
      when_valid (v ▸ validate_application_status_filter status ▸ validate_filters filters) (
        attempt (Applications.list (context_user p).id status filters) server_error
          (λ found w. (respond 200 (applications_page found.0 found.1), w)))

  unfoldable pub list_bookmarks_handler : Principal → Query → Handler
  unfolding read_filters when_valid attempt
  list_bookmarks_handler p qs =
      let (filters, v) = read_filters qs (pos 1) (pos 20) "-created_at" bookmark_sorts new in
      when_valid (v ▸ validate_filters filters) (
        attempt (Bookmarks.get_all_for_user (context_user p).id filters) server_error
          (λ found w. (respond 200 (bookmarks_page found.0 found.1), w)))

  abbrev pub bookmark_response : AddBookmarkInput → BookmarkRow → Response
  bookmark_response input b =
      respond 201 (bookmark_created_data b.id input.opportunity_id b.created_at)

  unfoldable pub add_bookmark_handler : Principal → Decoded AddBookmarkInput → Handler
  unfolding read_json when_valid attempt
  add_bookmark_handler p body = read_json body λ input.
      when_valid
        (new ▸ check (not (input.opportunity_id == "")) "opportunity_id" "must be provided")
        (attempt (Bookmarks.create (context_user p).id input.opportunity_id) bookmark_failed
          (λ b w. (bookmark_response input b, w)))

  unfoldable pub remove_bookmark_handler : Principal → String → Handler
  unfolding with_id attempt
  remove_bookmark_handler p id = with_id id λ bookmark_id.
      attempt (Bookmarks.delete bookmark_id (context_user p).id) not_found_or_error
        (λ done w. (respond 204 empty, w))
