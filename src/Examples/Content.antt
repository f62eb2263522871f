-- ===== src/Examples/Content.antt =====
-- The content of the site at concrete rows and requests: reviews, opportunities, dates and pages.
use gradconnect_api.Common.{
  ℕ, Bool, ◌≡◌, refl, inl, true, false, none, some, List, [], ◌∷◌, arith, ◌||◌, ◌==◌,
}
use gradconnect_api.Common.Int.{pos, ◌*ℤ◌, ◌-ℤ◌}
use gradconnect_api.Common.Calendar.{days_before_year}
use gradconnect_api.Data.Dates.{marshal_date, unmarshal_date, unmarshal_date-marshal_date}
use gradconnect_api.Validator.{valid, new, check, permitted_value}
use gradconnect_api.Filters.{Filters, Metadata, validate_filters}
use gradconnect_api.Store.{Db, World, ok}
use gradconnect_api.Store.Content.{Employer, Review, OpportunityRow}
use gradconnect_api.Data.Timeline.{
  marshal_timeline, unmarshal_timeline, unmarshal_timeline-marshal_timeline,
}
use gradconnect_api.Data.Reviews
use gradconnect_api.Data.Reviews.Validation
use gradconnect_api.Data.Tasks
use gradconnect_api.Data.Listing.{listing, by_number}
use gradconnect_api.Data.Listing.Pages.{IsPage, listing-IsPage}
use gradconnect_api.Data.Listing.{order_by}
use gradconnect_api.Data.Opportunities.{status_of, has_status}
use gradconnect_api.Data.Opportunities.Status.{has_status-status_of, has_status-inverted}
use gradconnect_api.Data.Reviews.{
  insert_sql, moderate_sql, get_all_by_employer_slug_sql, hide_author, new_review, moderated,
}
use gradconnect_api.Data.Reviews.Validation.{
  CreateReviewInput, UpdateReviewInput, ModerateReviewInput, StageBreakdown,
}
use gradconnect_api.Data.Reviews.Approvals.{decision_seen}
use gradconnect_api.Data.Reviews.Tracking.{
  Reached, start, submitted, decided, get_all_by_employer_slug_sql-approved,
}
use gradconnect_api.App.Http.{decoded, signed_in}
use gradconnect_api.App.Reviews.{moderate_review_handler, update_review_handler}
use gradconnect_api.App.Reviews.Laws.{ReviewModeration, moderate_review_handler-ReviewModeration}
use gradconnect_api.App.Reviews.Edits.{ReviewEdit, update_review_handler-ReviewEdit}
use gradconnect_api.Examples.{test_env, alice, one_user, world}

abbrev pub acme : Employer
acme = record {
  id = "acme";
  name = "Acme";
  slug = "acme";
  industry = "Energy";
  size = none;
  hq_location = none;
  offices = "[]";
  logo_url = none;
  overview = none;
  culture = none;
  website = none;
  social_links = "[]";
  is_verified = true;
  avg_difficulty_rating = none;
  avg_experience_rating = none;
  review_count = 0;
  version = 1;
  created_at = 0;
  updated_at = 0;
}

abbrev one_stage : StageBreakdown
one_stage = record { raw = "[{\"stage_name\":\"Test\"}]"; stages = some (some "Test" ∷ []) }

abbrev submission : CreateReviewInput
submission = record {
  employer_id = "acme";
  programme_name = "Graduate programme";
  application_year = pos 2025;
  outcome = "offer";
  stage_breakdown = one_stage;
  difficulty_rating = pos 3;
  experience_rating = pos 4;
  tips = none;
  degree_discipline = none;
  university = none;
}

abbrev pub with_employer : Db
with_employer = record one_user { employer = acme ∷ [] }

abbrev after_submission : Db
after_submission = (insert_sql ⦃env = test_env⦄ "alice" submission 5 0 with_employer).1

abbrev pub after_approval : Db
after_approval = (moderate_sql ⦃env = test_env⦄ "id" "approved" 6 1 after_submission).1

approved-Reached :
    Reached ⦃env = test_env⦄ after_approval
      (decision_seen ⦃env = test_env⦄ "approved" "id" (λ id. false))
approved-Reached =
    decided after_submission (λ id. false) "id" "approved" 6 1
      (submitted with_employer (λ id. false) "alice" submission 5 0 (start with_employer refl)
        (λ r i. absurd i))

abbrev newest_first : Filters
newest_first = record {
  page = pos 1;
  page_size = pos 20;
  sort = "-created_at";
  sort_safe_list = "created_at" ∷ "-created_at" ∷ [];
}

abbrev the_review : Review
the_review = moderated 6 "approved" (new_review ⦃env = test_env⦄ 5 0 "alice" "acme" submission)

abbrev pub one_page : Metadata
one_page = record {
  current_page = 1;
  page_size = 20;
  first_page = 1;
  last_page = 1;
  total_records = 1;
}

shown :
    (get_all_by_employer_slug_sql "acme" newest_first 7 2 after_approval).0
    ≡ ok (hide_author the_review ∷ [], one_page)
unfolding get_all_by_employer_slug_sql insert_sql moderate_sql ◌*ℤ◌ ◌-ℤ◌
shown = refl

get_all_by_employer_slug_sql-approved_example :
    decision_seen ⦃env = test_env⦄ "approved" "id" (λ id. false) "id" ≡ true
get_all_by_employer_slug_sql-approved_example =
    get_all_by_employer_slug_sql-approved ⦃env = test_env⦄ "acme" newest_first 7 2
      (hide_author the_review ∷ []) one_page (hide_author the_review) approved-Reached shown
      (inl refl)

abbrev to_moderate : World
to_moderate = record world { db = after_submission }

abbrev approve : ModerateReviewInput
approve = record { status = "approved" }

approved :
    (moderate_review_handler ⦃env = test_env⦄ "id" (decoded approve true) to_moderate).0.status
    ≡ 200
unfolding moderate_review_handler insert_sql Validation.validate_moderate_review_input check
    permitted_value Reviews.moderate Tasks.insert
approved = refl

moderate_review_handler-ReviewModeration_example :
    ReviewModeration ⦃env = test_env⦄ "id"
      (decoded approve true)
      to_moderate
      (moderate_review_handler ⦃env = test_env⦄ "id" (decoded approve true) to_moderate)
moderate_review_handler-ReviewModeration_example =
    moderate_review_handler-ReviewModeration ⦃env = test_env⦄ "id" (decoded approve true)
      to_moderate

abbrev second_thoughts : UpdateReviewInput
second_thoughts = record {
  programme_name = none;
  application_year = none;
  outcome = some "withdrew";
  stage_breakdown = record { raw = ""; stages = none };
  difficulty_rating = none;
  experience_rating = none;
  tips = none;
  degree_discipline = none;
  university = none;
}

abbrev to_edit : World
to_edit = record world { db = after_approval }

edited_by_alice :
    (update_review_handler ⦃env = test_env⦄
      (signed_in alice)
      "id"
      (decoded second_thoughts true)
      to_edit).0.status
    ≡ 200
unfolding update_review_handler insert_sql moderate_sql Validation.validate_update_review_input
    check permitted_value Reviews.update
edited_by_alice = refl

update_review_handler-ReviewEdit_example :
    ReviewEdit ⦃env = test_env⦄ (signed_in alice) "id" (decoded second_thoughts true) to_edit (
      update_review_handler ⦃env = test_env⦄
        (signed_in alice)
        "id"
        (decoded second_thoughts true)
        to_edit)
update_review_handler-ReviewEdit_example =
    update_review_handler-ReviewEdit ⦃env = test_env⦄ (signed_in alice) "id"
      (decoded second_thoughts true) to_edit

unmarshal_timeline-marshal_timeline_example :
    unmarshal_timeline (marshal_timeline (pos 12)) ≡ some (pos 12)
unmarshal_timeline-marshal_timeline_example =
    unmarshal_timeline-marshal_timeline (pos 12) (omega arith, omega arith)

unmarshal_date-marshal_date_example : unmarshal_date 738000 (marshal_date 738945) ≡ some 738945
unmarshal_date-marshal_date_example =
    unmarshal_date-marshal_date 738000 738945 (unfold days_before_year in omega arith)

abbrev pub internship : OpportunityRow
internship = record {
  id = "o1";
  employer_id = "acme";
  title = "Internship";
  slug = "internship";
  kind = "internship";
  intake_year = pos 2026;
  description = "";
  requirements = none;
  location = "Lagos";
  discipline_tags = [];
  opens_at = some 10;
  deadline = some 20;
  application_url = "https://acme.example.org";
  is_active = true;
  source_url = none;
  created_at = 0;
  updated_at = 0;
}

has_status-status_of_example :
    (has_status "withdrawn" 15 internship ≡ (status_of 15 internship == "withdrawn"))
    × (has_status "upcoming" 15 internship ≡ (status_of 15 internship == "upcoming"))
    × (has_status "closed" 15 internship ≡ (status_of 15 internship == "closed"))
    × (has_status "open" 15 internship ≡ (status_of 15 internship == "open"))
    × (has_status "open_or_upcoming" 15 internship
        ≡ (status_of 15 internship == "open" || status_of 15 internship == "upcoming"))
    × (has_status "all" 15 internship ≡ true)
has_status-status_of_example = has_status-status_of 15 internship (omega arith)

abbrev inverted : OpportunityRow
inverted = record internship { opens_at = some 30 }

has_status-inverted_example :
    (status_of 25 inverted ≡ "upcoming")
    × (has_status "closed" 25 inverted ≡ true)
    × (has_status "open_or_upcoming" 25 inverted ≡ false)
has_status-inverted_example =
    has_status-inverted 25 30 20 inverted refl refl refl (omega arith) (omega arith)

-- Three rows on pages of two.
abbrev second_page : Filters
second_page = record newest_first { page = pos 2; page_size = pos 2 }

accepted : valid (validate_filters second_page new) ≡ true
unfolding validate_filters valid check permitted_value
accepted = refl

abbrev descending : ℕ → ℕ → Bool
descending = by_number (λ n. n)

listing-IsPage_example :
    (rows : List ℕ) × (m : Metadata) × (listing descending second_page (3 ∷ 1 ∷ 2 ∷ [])
      ≡ ok (rows, m))
    × IsPage second_page (order_by descending (3 ∷ 1 ∷ 2 ∷ [])) rows m
listing-IsPage_example = listing-IsPage descending second_page (3 ∷ 1 ∷ 2 ∷ []) accepted
