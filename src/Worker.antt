-- ===== src/Worker.antt =====
-- internal/worker/worker.go and jobs.go: the queue of background tasks, the dispatcher, and one pass of
-- the loop of `Run`. SKIP LOCKED is not needed: each statement is one step. Of tasks that are due at
-- the same time the first of the table is taken.
pub mod Claim
pub mod Lifecycle
pub mod Retries
pub mod Poll
pub mod Cron
pub mod SesEvents
use gradconnect_api.Common.{
  ℕ, suc, ◌+◌, ◌*◌, ◌^◌, String, Bool, true, false, ◌&&◌, Option, none, some, List, [], ◌∷◌, ◌==◌,
  leb, if◌then◌else◌, update_where, assign,
}
use gradconnect_api.Store.{Err, record_not_found, Result, ok, err, Env, Db, World, Sql, Exec, query}
use gradconnect_api.Store.Rows.{
  Payload, Task, TaskStatus, pending, processing, completed, failed, dead,
}
use gradconnect_api.App.Auth.Steps.{minute}

abbrev pub is_pending : TaskStatus → Bool
is_pending pending = true
is_pending _ = false

-- `status = 'pending' AND run_at <= now()`
abbrev pub is_due : ℕ → Task → Bool
is_due now t = is_pending t.status && leb t.run_at now

abbrev pub sooner : Task → Option Task → Task
sooner t none = t
sooner t (some u) = if leb t.run_at u.run_at then t else u

-- `ORDER BY run_at ASC LIMIT 1`
unfoldable pub next_due : ℕ → List Task → Option Task
next_due now [] = none
next_due now (t ∷ queue) =
    let rest = next_due now queue in if is_due now t then some (sooner t rest) else rest

abbrev pub claimed : ℕ → Task → Task
claimed now t = record t { status = processing; locked_at = some now }

abbrev pub finished : ℕ → Task → Task
finished now t = record t { status = completed; completed_at = some now }

-- Dead at the last attempt, or pending again after 2^attempts minutes.
abbrev pub failed_again : ℕ → String → Task → Task
failed_again now message t =
    if leb t.max_attempts (t.attempts + 1)
    then record t { status = dead; attempts = t.attempts + 1; last_error = some message }
    else record t {
      status = pending;
      attempts = t.attempts + 1;
      last_error = some message;
      run_at = now + 2 ^ (t.attempts + 1) * minute;
    }

-- `UPDATE task_queue SET … WHERE id = …`
unfoldable pub set_task : String → (Task → Task) → List Task → List Task
unfolding update_where
set_task id f queue = update_where (λ t. t.id == id) f queue

abbrev pub claim_row : ℕ → Option Task → Db → Result Task × Db
claim_row now none db = (err record_not_found, db)
claim_row now (some t) db =
    (ok (claimed now t), record db { task_queue = set_task t.id (claimed now) db.task_queue })

unfoldable pub claim_next_sql : Sql Task
unfolding next_due set_task
claim_next_sql now n db = claim_row now (next_due now db.task_queue) db

unfoldable pub mark_completed_sql : String → Sql (Unit {0})
unfolding set_task
mark_completed_sql task_id now n db =
    (ok tt, record db { task_queue = set_task task_id (finished now) db.task_queue })

unfoldable pub mark_failed_sql : String → String → Sql (Unit {0})
unfolding set_task
mark_failed_sql task_id message now n db =
    (ok tt, record db { task_queue = set_task task_id (failed_again now message) db.task_queue })

-- A handler returns the text of its error, or none.
abbrev pub HandlerFunc : Type 0
HandlerFunc = Payload → World → Option String × World

pub record Dispatcher : Type 0 where
  pub handlers : String → Option HandlerFunc

abbrev pub new_dispatcher : Dispatcher
new_dispatcher = record { handlers = λ job_type. none }

abbrev register_at : Option HandlerFunc → String → HandlerFunc → Dispatcher → Option Dispatcher
register_at (some _) job_type handler d = none
register_at none job_type handler d =
    some (record { handlers = assign job_type handler d.handlers })

-- `Register`, which panics on a duplicate
unfoldable pub register : String → HandlerFunc → Dispatcher → Option Dispatcher
register job_type handler d = register_at (d.handlers job_type) job_type handler d

abbrev run_handler : Option HandlerFunc → HandlerFunc
run_handler none payload w = (some "unknown job type", w)
run_handler (some handler) payload w = handler payload w

-- `Handle`
unfoldable pub handle : Dispatcher → String → Payload → World → Option String × World
handle d job_type = run_handler (d.handlers job_type)

module _ ⦃env : Env⦄ where
  unfoldable pub claim_next : Exec Task
  unfolding query claim_next_sql
  claim_next = query claim_next_sql

  -- Their errors are logged and dropped.
  unfoldable pub mark_completed : String → World → World
  unfolding query mark_completed_sql
  mark_completed task_id w = (query (mark_completed_sql task_id) w).1

  unfoldable pub mark_failed : String → String → World → World
  unfolding query mark_failed_sql
  mark_failed task_id message w = (query (mark_failed_sql task_id message) w).1

  abbrev pub settle : String → Option String × World → World
  settle task_id (none, w) = mark_completed task_id w
  settle task_id (some message, w) = mark_failed task_id message w

  abbrev pub work_on : Dispatcher → Result Task × World → World
  work_on d (err e, w) = w
  work_on d (ok t, w) = settle t.id (handle d t.job_type t.payload w)

  -- One pass of the loop of `Run`. On an error of the claim the pool sleeps.
  unfoldable pub poll : Dispatcher → World → World
  unfolding claim_next handle mark_completed mark_failed
  poll d w = work_on d (claim_next w)
