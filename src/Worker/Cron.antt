-- ===== src/Worker/Cron.antt =====
-- internal/worker/cron.go: the scheduled jobs, and the two that an administrator starts by hand. What the
-- passes log is left out. In the result of a claim record_not_found stands for pgx.ErrNoRows.
pub mod Once
pub mod Ratings
use gradconnect_api.Common.{
  ℕ, suc, ◌*◌, String, Bool, true, false, not, ◌&&◌, ◌||◌, Option, none, some, List, [], ◌∷◌, ◌++◌,
  map, length, ◌==◌, ltb, eqb, select, any, find_first, update_where, if◌then◌else◌,
}
use gradconnect_api.Common.Calendar.{year_day}
use gradconnect_api.Store.{
  Err, record_not_found, failure, already_ran_today, Result, ok, err, Env, World, Sql, Exec, query,
  pure, ◌>>=◌,
}
use gradconnect_api.Store.Content.{CronRun, Employer}
use gradconnect_api.Store.Rows.{digest}
use gradconnect_api.Data.Users
use gradconnect_api.Data.Tasks
use gradconnect_api.Data.Bookmarks.{day}
use gradconnect_api.Data.Bookmarks.Reminders.{
  hour, lagos_date, lagos_hour, DeadlineReminderRecipient, find_deadline_reminder_recipients,
}
use gradconnect_api.Data.Employers.{counts, rated, average, sum_of}

abbrev pub grace_period : ℕ
grace_period = 30 * 24 * hour

-- `UNIQUE (job_name, run_date)`
abbrev pub is_run : String → ℕ → CronRun → Bool
is_run job date r = r.job_name == job && eqb r.run_date date

abbrev pub is_cleanup_hour : ℕ → Bool
is_cleanup_hour h = eqb h 0 || eqb h 6 || eqb h 12 || eqb h 18

abbrev pub later_start : CronRun → Option ℕ → Option ℕ
later_start r none = some r.started_at
later_start r (some t) = if ltb t r.started_at then some r.started_at else some t

-- `WHERE job_name = $1 ORDER BY started_at DESC LIMIT 1`
unfoldable pub last_start : String → List CronRun → Option ℕ
last_start job [] = none
last_start job (r ∷ rs) =
    let rest = last_start job rs in if r.job_name == job then later_start r rest else rest

unfoldable pub last_started_sql : String → Sql (Option ℕ)
unfolding last_start
last_started_sql job now n db = (ok (last_start job db.cron_run), db)

-- The guard compares the hour and the day of the year, and not the year.
abbrev pub ran_this_hour : ℕ → Option ℕ → Bool
ran_this_hour now none = false
ran_this_hour now (some t) =
    eqb (lagos_hour t) (lagos_hour now) && eqb (year_day (lagos_date t)) (year_day (lagos_date now))

-- `SET completed_at = now(), enqueued_count = $1 WHERE id = $2`
unfoldable pub complete_run_sql : ℕ → String → Sql (Unit {0})
unfolding update_where
complete_run_sql count run_id now n db = (
  ok tt,
  record db {
    cron_run =
        update_where (λ r. r.id == run_id)
          (λ r. record r { completed_at = some now; enqueued_count = count }) db.cron_run;
  },
)

unfoldable pub employer_ids_sql : Sql (List String)
employer_ids_sql now n db = (ok (map (λ e. e.id) db.employer), db)

-- updateQuery: no row is no error here. The trigger sets updated_at.
unfoldable pub rate_employer_sql : String → Sql (Unit {0})
unfolding select update_where average sum_of
rate_employer_sql id now n db = (
  ok tt,
  record db {
    employer =
        update_where (λ e. e.id == id)
          (λ e. record (rated (select (counts id) db.review) e) { updated_at = now }) db.employer;
  },
)

unfoldable pub delete_expired_sessions_sql : Sql ℕ
unfolding select
delete_expired_sessions_sql now n db = (
  ok (length (select (λ s. ltb s.expires_at now) db.session)),
  record db { session = select (λ s. not (ltb s.expires_at now)) db.session },
)

abbrev pub restarted : ℕ → CronRun → CronRun
restarted now r = record r { started_at = now; completed_at = none; enqueued_count = 0 }

abbrev pub counted : Result (Unit {0}) → ℕ → ℕ
counted (ok _) n = suc n
counted (err e) n = n

module _ ⦃env : Env⦄ where
  abbrev pub new_run : ℕ → ℕ → String → ℕ → CronRun
  new_run now n job date = record {
    id = env.uuid n;
    job_name = job;
    run_date = date;
    enqueued_count = 0;
    started_at = now;
    completed_at = none;
  }

  -- `ON CONFLICT (job_name, run_date) DO NOTHING RETURNING id`
  unfoldable pub claim_run_sql : String → ℕ → Sql String
  unfolding any
  claim_run_sql job date now n db =
      if any (is_run job date) db.cron_run
      then (err record_not_found, db)
      else (ok (env.uuid n), record db { cron_run = db.cron_run ++ new_run now n job date ∷ [] })

  -- The run that a conflict restarts, or a new one.
  abbrev pub restart_into :
      String → ℕ → ℕ → ℕ → Option CronRun → List CronRun → String × List CronRun
  restart_into job date now n none runs = (env.uuid n, runs ++ new_run now n job date ∷ [])
  restart_into job date now n (some r) runs =
      (r.id, update_where (is_run job date) (restarted now) runs)

  -- `ON CONFLICT (job_name, run_date) DO UPDATE … RETURNING id`
  unfoldable pub restart_run_sql : String → ℕ → Sql String
  unfolding find_first update_where
  restart_run_sql job date now n db =
      let (id, runs) =
        restart_into job date now n (find_first (is_run job date) db.cron_run) db.cron_run in
      (ok id, record db { cron_run = runs })

  unfoldable pub rate_each : List String → World → ℕ × World
  unfolding query rate_employer_sql
  rate_each [] w = (0, w)
  rate_each (id ∷ ids) w =
      let (r, w1) = query (rate_employer_sql id) w in
      let (n, w2) = rate_each ids w1 in (counted r n, w2)

  abbrev pub rate_found : Result (List String) × World → ℕ × World
  rate_found (err e, w) = (0, w)
  rate_found (ok ids, w) = rate_each ids w

  -- `recalculateAllEmployerRatings`
  unfoldable pub recalculate_all_employer_ratings : World → ℕ × World
  unfolding employer_ids_sql query rate_each
  recalculate_all_employer_ratings w = rate_found (query employer_ids_sql w)

  unfoldable pub enqueue_each : String → String → List DeadlineReminderRecipient → World → ℕ × World
  unfolding Tasks.insert
  enqueue_each base_url frontend_url [] w = (0, w)
  enqueue_each base_url frontend_url (c ∷ cs) w =
      let payload =
        digest
          (("recipient", c.email)
            ∷ ("first_name", c.first_name)
            ∷ ("base_url", base_url)
            ∷ ("frontend_url", frontend_url)
            ∷ [])
          c.bookmarks in
      let (r, w1) = Tasks.insert "email:deadline_reminder" payload w in
      let (n, w2) = enqueue_each base_url frontend_url cs w1 in (counted r n, w2)

  abbrev pub enqueue_found :
      String → String → Result (List DeadlineReminderRecipient) × World → ℕ × World
  enqueue_found base_url frontend_url (err e, w) = (0, w)
  enqueue_found base_url frontend_url (ok recipients, w) =
      enqueue_each base_url frontend_url recipients w

  -- `enqueueDeadlineReminders`, three days ahead
  unfoldable pub enqueue_deadline_reminders : String → String → World → ℕ × World
  unfolding find_deadline_reminder_recipients enqueue_each
  enqueue_deadline_reminders base_url frontend_url w =
      enqueue_found base_url frontend_url (find_deadline_reminder_recipients 3 w)

  -- The error of this UPDATE is logged.
  unfoldable pub complete_run : String → ℕ → World → World
  unfolding complete_run_sql query
  complete_run run_id count w = (query (complete_run_sql count run_id) w).1

  abbrev pub run_claimed : (World → ℕ × World) → Result String × World → World
  run_claimed job (err e, w) = w
  run_claimed job (ok run_id, w) = let (count, w') = job w in complete_run run_id count w'

  -- A daily job: the claim of today's run, the work, and the mark of its end.
  unfoldable pub run_daily : String → ℕ → (World → ℕ × World) → World → World
  unfolding claim_run_sql query complete_run
  run_daily name target job w =
      if eqb (lagos_hour w.now) target
      then run_claimed job (query (claim_run_sql name (lagos_date w.now)) w)
      else w

  -- `maybeRunDeadlineReminders`
  unfoldable pub maybe_run_deadline_reminders : String → String → World → World
  unfolding run_daily enqueue_deadline_reminders
  maybe_run_deadline_reminders base_url frontend_url =
      run_daily "deadline_reminders" 18 (enqueue_deadline_reminders base_url frontend_url)

  -- `maybeRunRecalcRatings`
  unfoldable pub maybe_run_recalc_ratings : World → World
  unfolding run_daily recalculate_all_employer_ratings
  maybe_run_recalc_ratings = run_daily "recalculate_ratings" 3 recalculate_all_employer_ratings

  -- A run whose end is marked only if the work went well.
  unfoldable pub run_recorded : String → Exec ℕ → Exec ℕ
  unfolding restart_run_sql query complete_run
  run_recorded name job w =
      (query (restart_run_sql name (lagos_date w.now)) >>= λ run_id.
      job >>= λ count w. (ok count, complete_run run_id count w))
        w

  abbrev pub run_unless_recent : String → Exec ℕ → Result (Option ℕ) × World → World
  run_unless_recent name job (err e, w) = w
  run_unless_recent name job (ok last, w) =
      if ran_this_hour w.now last then w else (run_recorded name job w).1

  -- A job of every sixth hour, at most once in it.
  unfoldable pub run_six_hourly : String → Exec ℕ → World → World
  unfolding last_started_sql query run_recorded year_day
  run_six_hourly name job w =
      if is_cleanup_hour (lagos_hour w.now)
      then run_unless_recent name job (query (last_started_sql name) w)
      else w

  unfoldable pub delete_expired_sessions : Exec ℕ
  unfolding delete_expired_sessions_sql query
  delete_expired_sessions = query delete_expired_sessions_sql

  -- `maybeRunCleanupSessions`
  unfoldable pub maybe_run_cleanup_sessions : World → World
  unfolding run_six_hourly delete_expired_sessions
  maybe_run_cleanup_sessions = run_six_hourly "cleanup_sessions" delete_expired_sessions

  -- `maybeRunPurgeDeletedUsers`
  unfoldable pub maybe_run_purge_deleted_users : World → World
  unfolding run_six_hourly Users.purge_soft_deleted
  maybe_run_purge_deleted_users =
      run_six_hourly "purge_deleted_users" (Users.purge_soft_deleted grace_period)

  -- `runScheduledChecks`
  unfoldable pub run_scheduled_checks : String → String → World → World
  unfolding maybe_run_deadline_reminders maybe_run_recalc_ratings maybe_run_cleanup_sessions
      maybe_run_purge_deleted_users
  run_scheduled_checks base_url frontend_url w = maybe_run_purge_deleted_users (
      maybe_run_cleanup_sessions
        (maybe_run_recalc_ratings (maybe_run_deadline_reminders base_url frontend_url w)))

  abbrev pub claimed_by_hand : Result String × World → Result ℕ × World
  claimed_by_hand (err record_not_found, w) = (err already_ran_today, w)
  claimed_by_hand (err e, w) = (err e, w)
  claimed_by_hand (ok run_id, w) =
      let (count, w') = recalculate_all_employer_ratings w in
      (ok count, complete_run run_id count w')

  -- `RunRecalcRatingsNow`
  unfoldable pub run_recalc_ratings_now : Exec ℕ
  unfolding claim_run_sql query recalculate_all_employer_ratings complete_run
  run_recalc_ratings_now w =
      claimed_by_hand (query (claim_run_sql "recalculate_ratings" (lagos_date w.now)) w)

  -- `RunCleanupSessionsNow`
  unfoldable pub run_cleanup_sessions_now : Exec ℕ
  unfolding run_recorded delete_expired_sessions
  run_cleanup_sessions_now = run_recorded "cleanup_sessions" delete_expired_sessions
