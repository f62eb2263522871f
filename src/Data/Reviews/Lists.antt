-- ===== src/Data/Reviews/Lists.antt =====
-- internal/data/reviews.go: `GetAllByEmployerSlug` and `GetAllForModeration`.
use gradconnect_api.Common.{
  String, Bool, not, ◌&&◌, Option, none, some, List, map, ◌==◌, is_some, select, any, contains,
  if◌then◌else◌,
}
use gradconnect_api.Store.{failure, Result, ok, err, Env, Sql, Exec, query}
use gradconnect_api.Store.Content.{Employer, Review}
use gradconnect_api.Filters.{Filters, Metadata, sort_column}
use gradconnect_api.Data.Listing.{bind_key, by_id, by_number, list_by}
use gradconnect_api.Data.Reviews.Validation.{permitted_review_list_statuses}

-- `ORDER BY r.<column>`: the columns that the lists may be ordered by are numbers and times.
abbrev pub review_key : String → Option (Review → Review → Bool)
review_key column =
    if column == "created_at"
    then some (by_number (λ r. r.created_at))
    else if column == "difficulty_rating"
    then some (by_number (λ r. r.difficulty_rating))
    else if column == "experience_rating"
    then some (by_number (λ r. r.experience_rating))
    else none

-- `INNER JOIN employer e ON e.id = r.employer_id WHERE e.slug = $1`
abbrev pub of_slug : String → List Employer → String → Bool
of_slug slug employers employer_id = any (λ e. e.id == employer_id && e.slug == slug) employers

abbrev pub hide_author : Review → Review
hide_author r = record r { user_id = none }

-- `WHERE e.slug = $1 AND r.status = 'approved'`
abbrev pub is_public : String → List Employer → Review → Bool
is_public slug employers r = of_slug slug employers r.employer_id && r.status == "approved"

unfoldable pub get_all_by_employer_slug_sql : String → Filters → Sql (List Review × Metadata)
unfolding any select list_by sort_column
get_all_by_employer_slug_sql slug filters now n db = (
  list_by (by_id (λ r. r.id)) (bind_key (sort_column filters) review_key) filters
      (map hide_author (select (is_public slug db.employer) db.review)),
  db,
)

-- A row without an author ends the scan of the list with an error.
abbrev pub scan_admin_reviews : Result (List Review × Metadata) → Result (List Review × Metadata)
scan_admin_reviews (err e) = err e
scan_admin_reviews (ok (rows, m)) =
    if any (λ r. not (is_some r.user_id)) rows then err failure else ok (rows, m)

unfoldable pub get_all_for_moderation_sql : String → Filters → Sql (List Review × Metadata)
unfolding any select list_by sort_column contains
get_all_for_moderation_sql status filters now n db =
    if contains permitted_review_list_statuses status
    then (
      scan_admin_reviews (
          list_by (by_id (λ r. r.id)) (bind_key (sort_column filters) review_key) filters
            (select (λ r. r.status == status) db.review)),
      db,
    )
    else (err failure, db)

module _ ⦃env : Env⦄ where
  unfoldable pub get_all_by_employer_slug : String → Filters → Exec (List Review × Metadata)
  unfolding get_all_by_employer_slug_sql query
  get_all_by_employer_slug slug filters = query (get_all_by_employer_slug_sql slug filters)

  unfoldable pub get_all_for_moderation : String → Filters → Exec (List Review × Metadata)
  unfolding get_all_for_moderation_sql query
  get_all_for_moderation status filters = query (get_all_for_moderation_sql status filters)
