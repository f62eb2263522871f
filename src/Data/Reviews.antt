-- ===== src/Data/Reviews.antt =====
-- internal/data/reviews.go: the methods of `ReviewModel`. The constraints of a statement are those of
-- the migrations; none of them makes a review unique.
pub mod Validation
pub mod Approvals
pub mod Tracking
pub mod Effects
pub mod Decisions
pub mod Lists
use Prim.Native.String.{count}
use gradconnect_api.Common.{
  ℕ, String, Bool, true, false, not, ◌&&◌, ◌||◌, Option, none, some, List, [], ◌∷◌, ◌++◌, map, ◌==◌,
  leb, is_some, length, select, find_first, update_where, any, contains, if◌then◌else◌, or_keep,
  or_keep_some,
}
use gradconnect_api.Common.Int.{ℤ, pos, pos_part, neg_part, lebℤ}
use gradconnect_api.Store.{
  record_not_found, failure, Result, ok, err, Env, Db, Sql, Exec, query, pure, raise, ◌>>=◌,
}
use gradconnect_api.Store.Content.{Employer, Review}
use gradconnect_api.Filters.{Filters, Metadata, sort_column}
use gradconnect_api.Data.Ids.{with_uuid, fits_opt, fits_int4}
use gradconnect_api.Data.Listing.{bind_key, by_id, by_number, list_by}
use gradconnect_api.Data.Reviews.Validation.{
  CreateReviewInput, UpdateReviewInput, permitted_review_outcomes, permitted_review_list_statuses,
}
unfoldable pub use gradconnect_api.Data.Reviews.Lists.{
  review_key, of_slug, hide_author, is_public, get_all_by_employer_slug_sql,
  get_all_by_employer_slug, scan_admin_reviews, get_all_for_moderation_sql, get_all_for_moderation,
}

abbrev pub is_rating : ℤ → Bool
is_rating z = lebℤ (pos 1) z && lebℤ z (pos 5)

-- The column types and the CHECK constraints of review.
unfoldable pub fits_review : CreateReviewInput → Bool
unfolding contains
fits_review input =
    leb (count input.programme_name) 255
    && fits_int4 input.application_year
    && contains permitted_review_outcomes input.outcome
    && is_rating input.difficulty_rating
    && is_rating input.experience_rating
    && fits_opt input.degree_discipline
    && fits_opt input.university

-- The foreign keys of a review.
abbrev pub has_targets : String → String → Db → Bool
has_targets employer_id user_id db =
    any (λ e. e.id == employer_id) db.employer && any (λ u. u.id == user_id) db.app_user

module _ ⦃env : Env⦄ where
  abbrev pub new_review : ℕ → ℕ → String → String → CreateReviewInput → Review
  new_review now n user_id employer_id input = record {
    id = env.uuid n;
    employer_id = employer_id;
    user_id = some user_id;
    programme_name = input.programme_name;
    application_year = input.application_year;
    outcome = input.outcome;
    stage_breakdown = input.stage_breakdown.raw;
    difficulty_rating = pos_part input.difficulty_rating;
    experience_rating = pos_part input.experience_rating;
    tips = input.tips;
    degree_discipline = input.degree_discipline;
    university = input.university;
    status = "pending";
    created_at = now;
    updated_at = now;
  }

  -- The foreign keys are checked once the row is in.
  unfoldable pub insert_sql : String → CreateReviewInput → Sql Review
  unfolding with_uuid fits_review any
  insert_sql user_id input = with_uuid input.employer_id λ employer_id now n db.
      if not (fits_review input)
      then (err failure, db)
      else if has_targets employer_id user_id db
      then (
        ok (new_review now n user_id employer_id input),
        record db { review = db.review ++ new_review now n user_id employer_id input ∷ [] },
      )
      else (err record_not_found, db)

  -- `Insert`
  unfoldable pub insert : String → CreateReviewInput → Exec Review
  unfolding insert_sql query
  insert user_id input = query (insert_sql user_id input)

-- `Scan` into the fields of `Review`: a NULL does not fit the text of the author.
abbrev pub scan_review : Option Review → Result Review
scan_review none = err record_not_found
scan_review (some r) = if is_some r.user_id then ok r else err failure

abbrev pub is_author : String → Option String → Bool
is_author user_id none = false
is_author user_id (some author) = author == user_id

abbrev pub rating_or_keep : Option ℤ → ℕ → ℕ
rating_or_keep none a = a
rating_or_keep (some z) a = pos_part z

-- The merge of an edit, which has to be moderated again.
abbrev pub merge_review : UpdateReviewInput → Review → Review
merge_review input current = record current {
  programme_name = or_keep input.programme_name current.programme_name;
  application_year = or_keep input.application_year current.application_year;
  outcome = or_keep input.outcome current.outcome;
  stage_breakdown =
      if input.stage_breakdown.raw == ""
      then current.stage_breakdown
      else input.stage_breakdown.raw;
  difficulty_rating = rating_or_keep input.difficulty_rating current.difficulty_rating;
  experience_rating = rating_or_keep input.experience_rating current.experience_rating;
  tips = or_keep_some input.tips current.tips;
  degree_discipline = or_keep_some input.degree_discipline current.degree_discipline;
  university = or_keep_some input.university current.university;
  status = "pending";
}

abbrev pub opt_rating : Option ℤ → Bool
opt_rating none = true
opt_rating (some z) = is_rating z

-- The column types for what an edit brings in.
unfoldable pub fits_edit : UpdateReviewInput → Review → Bool
unfolding contains
fits_edit input merged =
    leb (count merged.programme_name) 255
    && fits_int4 merged.application_year
    && contains permitted_review_outcomes merged.outcome
    && opt_rating input.difficulty_rating
    && opt_rating input.experience_rating
    && fits_opt merged.degree_discipline
    && fits_opt merged.university

-- What the UPDATE writes to the row, and the trigger on it.
abbrev pub edited_review : ℕ → Review → Review → Review
edited_review now merged r = record merged {
  id = r.id;
  employer_id = r.employer_id;
  user_id = r.user_id;
  created_at = r.created_at;
  updated_at = now;
}

-- `WHERE id = $1 AND user_id = $2`
abbrev pub is_own_review : String → String → Review → Bool
is_own_review review_id user_id r = r.id == review_id && is_author user_id r.user_id

abbrev pub moderated : ℕ → String → Review → Review
moderated now status r = record r { status = status; updated_at = now }

module _ ⦃env : Env⦄ where
  unfoldable pub get_by_id_sql : String → Sql Review
  unfolding with_uuid find_first
  get_by_id_sql review_id =
      with_uuid review_id λ id now n db. (scan_review (find_first (λ r. r.id == id) db.review), db)

  -- `GetByID`
  unfoldable pub get_by_id : String → Exec Review
  unfolding get_by_id_sql query
  get_by_id review_id = query (get_by_id_sql review_id)

  -- The UPDATE of `Update`; no row is an error that the callers do not tell apart.
  unfoldable pub update_sql : String → String → UpdateReviewInput → Review → Sql Review
  unfolding with_uuid fits_edit any update_where
  update_sql user_id review_id input current = with_uuid review_id λ id now n db.
      let merged = merge_review input current in
      if fits_edit input merged && any (is_own_review id user_id) db.review
      then (
        ok (record merged { updated_at = now }),
        record db {
          review = update_where (is_own_review id user_id) (edited_review now merged) db.review;
        },
      )
      else (err failure, db)

  -- `Update`
  unfoldable pub update : String → String → UpdateReviewInput → Exec Review
  unfolding get_by_id update_sql query
  update user_id review_id input = do
    current ← get_by_id review_id
    if is_author user_id current.user_id
        then query (update_sql user_id review_id input current)
        else raise record_not_found

  unfoldable pub delete_sql : String → String → Sql (Unit {0})
  unfolding with_uuid any select
  delete_sql user_id review_id = with_uuid review_id λ id now n db.
      if any (is_own_review id user_id) db.review
      then (ok tt, record db { review = select (λ r. not (is_own_review id user_id r)) db.review })
      else (err record_not_found, db)

  -- `Delete`
  unfoldable pub delete : String → String → Exec (Unit {0})
  unfolding delete_sql query
  delete user_id review_id = query (delete_sql user_id review_id)

  -- `UPDATE … RETURNING …`: the row is written before it is scanned.
  unfoldable pub moderate_sql : String → String → Sql Review
  unfolding with_uuid update_where find_first contains
  moderate_sql review_id status = with_uuid review_id λ id now n db.
      let after = update_where (λ r. r.id == id) (moderated now status) db.review in
      if contains permitted_review_list_statuses status
      then (scan_review (find_first (λ r. r.id == id) after), record db { review = after })
      else (err failure, db)

  -- `Moderate`
  unfoldable pub moderate : String → String → Exec Review
  unfolding moderate_sql query
  moderate review_id status = query (moderate_sql review_id status)
