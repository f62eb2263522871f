-- ===== src/Examples/Daily.antt =====
-- The daily recalculation of the ratings at a concrete hour.
use gradconnect_api.Common.{◌≡◌, refl, ◌⊎◌, [], ◌∷◌, In, length, map, ◌*◌}
use gradconnect_api.Store.{World, err, already_ran_today}
use gradconnect_api.Data.Reviews.{insert_sql, moderate_sql}
use gradconnect_api.Store.Content.{Employer}
use gradconnect_api.Data.Bookmarks.Reminders.{hour}
use gradconnect_api.Worker.Cron.{
  maybe_run_recalc_ratings, run_recalc_ratings_now, recalculate_all_employer_ratings,
}
use gradconnect_api.Worker.Cron.Once.{scheduled, by_hand, RecalcRun-at_most_once}
use gradconnect_api.Worker.Cron.Ratings.{IsRated, recalculate_all_employer_ratings-IsRated}
use gradconnect_api.Examples.{test_env, world}
use gradconnect_api.Examples.Content.{after_approval}

-- Three o'clock in the morning in Lagos, with one approved review.
abbrev at_three : World
at_three = record world { db = after_approval; now = 2 * hour }

abbrev ran : World
ran = maybe_run_recalc_ratings ⦃env = test_env⦄ at_three

abbrev by_admin : World
by_admin = record ran { now = 5 * hour }

counted_once : map (λ e. e.review_count) ran.db.employer ≡ 1 ∷ []
unfolding maybe_run_recalc_ratings insert_sql moderate_sql
counted_once = refl

refused_later : (run_recalc_ratings_now ⦃env = test_env⦄ by_admin).0 ≡ err already_ran_today
unfolding maybe_run_recalc_ratings run_recalc_ratings_now insert_sql moderate_sql
refused_later = refl

RecalcRun-at_most_once_example :
    (ran.db ≡ at_three.db) ⊎ ((run_recalc_ratings_now ⦃env = test_env⦄ by_admin).1.db ≡ by_admin.db)
RecalcRun-at_most_once_example =
    RecalcRun-at_most_once ⦃env = test_env⦄ (scheduled at_three) (by_hand by_admin) refl (λ r i. i)

recalculate_all_employer_ratings-IsRated_example :
    ((recalculate_all_employer_ratings ⦃env = test_env⦄ at_three).0 ≡ length at_three.db.employer)
    × ((recalculate_all_employer_ratings ⦃env = test_env⦄ at_three).1.db.review
        ≡ at_three.db.review)
    × ((e : Employer)
        → In e (recalculate_all_employer_ratings ⦃env = test_env⦄ at_three).1.db.employer
        → IsRated at_three.db.review e)
recalculate_all_employer_ratings-IsRated_example =
    recalculate_all_employer_ratings-IsRated ⦃env = test_env⦄ (λ n. refl) at_three
