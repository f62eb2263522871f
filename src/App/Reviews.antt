-- ===== src/App/Reviews.antt =====
-- internal/app/reviews.go.
pub mod Laws
pub mod Edits
use gradconnect_api.Common.{ℕ, String, Bool, true, List, [], ◌∷◌, ◌==◌, if◌then◌else◌}
use gradconnect_api.Common.Int.{pos}
use gradconnect_api.Validator.{new, ◌▸◌}
use gradconnect_api.Store.{Err, duplicate_review, record_not_found, Env, World}
use gradconnect_api.Store.Rows.{fields}
use gradconnect_api.Store.Content.{Review}
use gradconnect_api.Filters.{validate_filters}
use gradconnect_api.Data.Tasks
use gradconnect_api.Data.Reviews
use gradconnect_api.Data.Reviews.Validation.{
  CreateReviewInput, UpdateReviewInput, ModerateReviewInput, validate_create_review_input,
  validate_update_review_input, validate_moderate_review_input, validate_review_status_filter,
}
use gradconnect_api.App.Http.{
  Response, Handler, respond, review_data, review_submission_data, reviews_page, Decoded, read_json,
  attempt, error_response, server_error, server_error_response, not_found_response,
  not_found_or_error, Principal, context_user,
}
use gradconnect_api.App.Queries.{Query, read_string, read_filters, with_slug, with_id}
use gradconnect_api.App.Auth.Steps.{when_valid}

abbrev pub submission_failed : Err → Handler
submission_failed record_not_found w = (not_found_response, w)
submission_failed duplicate_review w =
    (error_response 409 "you have already submitted a review for this programme", w)
submission_failed _ w = (server_error_response, w)

abbrev pub submission_response : Review → Response
submission_response r =
    respond 201 (review_submission_data r.id r.employer_id r.programme_name r.status r.created_at)

abbrev pub review_sorts : List String
review_sorts =
    "difficulty_rating" ∷ "experience_rating" ∷ "created_at" ∷ "-difficulty_rating"
    ∷ "-experience_rating" ∷ "-created_at" ∷ []

module _ ⦃env : Env⦄ where
  unfoldable pub submit_review : String → CreateReviewInput → Handler
  unfolding attempt
  submit_review user_id input =
      attempt (Reviews.insert user_id input) submission_failed
        (λ review w. (submission_response review, w))

  unfoldable pub add_review_handler : Principal → Decoded CreateReviewInput → Handler
  unfolding read_json when_valid submit_review
  add_review_handler p body = read_json body λ input w.
      when_valid (validate_create_review_input w.year input new)
        (submit_review (context_user p).id input) w

  unfoldable pub edit_review : String → String → UpdateReviewInput → Handler
  unfolding attempt
  edit_review user_id review_id input =
      attempt (Reviews.update user_id review_id input) not_found_or_error
        (λ review w. (respond 200 (review_data review), w))

  unfoldable pub update_review_handler : Principal → String → Decoded UpdateReviewInput → Handler
  unfolding with_id read_json when_valid edit_review
  update_review_handler p id body = with_id id λ review_id. read_json body λ input w.
      when_valid (validate_update_review_input w.year input new)
        (edit_review (context_user p).id review_id input) w

  unfoldable pub list_reviews_handler : String → Query → Handler
  unfolding with_slug read_filters when_valid attempt
  list_reviews_handler slug_param qs = with_slug slug_param λ slug.
      let (filters, v) = read_filters qs (pos 1) (pos 20) "-created_at" review_sorts new in
      when_valid (v ▸ validate_filters filters) (
        attempt (Reviews.get_all_by_employer_slug slug filters) server_error
          (λ found w. (respond 200 (reviews_page found.0 found.1), w)))

  -- A recalculation that cannot be queued is only logged.
  unfoldable pub queue_recalc : String → Review → Handler
  unfolding attempt
  queue_recalc status review =
      let shown = respond 200 (review_data review) in
      if status == "approved"
      then attempt
          (Tasks.insert "employer:recalc_ratings"
            (fields (("employer_id", review.employer_id) ∷ [])))
          (λ e w. (shown, w)) (λ done w. (shown, w))
      else λ w. (shown, w)

  unfoldable pub decide_review : String → String → Handler
  unfolding attempt queue_recalc
  decide_review review_id status =
      attempt (Reviews.moderate review_id status) not_found_or_error (queue_recalc status)

  unfoldable pub moderate_review_handler : String → Decoded ModerateReviewInput → Handler
  unfolding with_id read_json when_valid decide_review
  moderate_review_handler id body = with_id id λ review_id. read_json body λ input.
      when_valid (validate_moderate_review_input input new) (decide_review review_id input.status)

  unfoldable pub list_reviews_for_moderation_handler : Query → Handler
  unfolding read_string read_filters when_valid attempt
  list_reviews_for_moderation_handler qs =
      let status = read_string qs "status" "pending" in
      let (filters, v) =
        read_filters qs (pos 1) (pos 20) "created_at" ("created_at" ∷ "-created_at" ∷ []) new in
      when_valid (v ▸ validate_review_status_filter status ▸ validate_filters filters) (
        attempt (Reviews.get_all_for_moderation status filters) server_error
          (λ found w. (respond 200 (reviews_page found.0 found.1), w)))
