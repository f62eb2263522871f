-- ===== src/Data/Employers/Ratings.antt =====
-- internal/data/employers.go: `RecalculateRatings`.
use gradconnect_api.Common.{
  ℕ, zero, suc, ◌+◌, ◌*◌, ◌/◌, String, Bool, ◌&&◌, Option, none, some, List, [], ◌∷◌, ◌==◌, length,
  select, update_where, any, if◌then◌else◌,
}
use gradconnect_api.Store.{record_not_found, ok, err, Env, Sql, Exec, query}
use gradconnect_api.Store.Content.{Employer, Review}
use gradconnect_api.Data.Ids.{with_uuid}

-- `AVG(…)::numeric(3,2)` in hundredths, rounded half up; NULL if there is nothing to average.
unfoldable pub average : ℕ → ℕ → Option ℕ
average sum zero = none
average sum (suc n) = some ((200 * sum + suc n) / (2 * suc n))

unfoldable pub sum_of : (Review → ℕ) → List Review → ℕ
sum_of f [] = 0
sum_of f (r ∷ rs) = f r + sum_of f rs

-- `WHERE employer_id = $1 AND status = 'approved'`
abbrev pub counts : String → Review → Bool
counts id r = r.employer_id == id && r.status == "approved"

abbrev pub rated : List Review → Employer → Employer
rated approved e = record e {
  avg_difficulty_rating = average (sum_of (λ r. r.difficulty_rating) approved) (length approved);
  avg_experience_rating = average (sum_of (λ r. r.experience_rating) approved) (length approved);
  review_count = length approved;
}

module _ ⦃env : Env⦄ where
  -- The trigger sets updated_at.
  unfoldable pub recalculate_ratings_sql : String → Sql (Unit {0})
  unfolding with_uuid any select update_where average sum_of
  recalculate_ratings_sql employer_id = with_uuid employer_id λ id now n db.
      if any (λ e. e.id == id) db.employer
      then (
        ok tt,
        record db {
          employer =
              update_where (λ e. e.id == id)
                (λ e. record (rated (select (counts id) db.review) e) { updated_at = now })
                db.employer;
        },
      )
      else (err record_not_found, db)

  -- `RecalculateRatings`
  unfoldable pub recalculate_ratings : String → Exec (Unit {0})
  unfolding recalculate_ratings_sql query
  recalculate_ratings employer_id = query (recalculate_ratings_sql employer_id)
