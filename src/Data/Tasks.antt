-- ===== src/Data/Tasks.antt =====
-- internal/data/tasks.go: `TaskModel.Insert`. The payloads that the handlers pass always marshal; the
-- defaults of task_queue are those of its migration.
use gradconnect_api.Common.{ℕ, String, none, [], ◌∷◌, ◌++◌}
use gradconnect_api.Store.{ok, Env, Sql, Exec, query}
use gradconnect_api.Store.Rows.{Payload, Task, pending}

module _ ⦃env : Env⦄ where
  abbrev pub new_task : ℕ → ℕ → String → Payload → Task
  new_task now n job_type payload = record {
    id = env.uuid n;
    job_type = job_type;
    payload = payload;
    status = pending;
    attempts = 0;
    max_attempts = 3;
    last_error = none;
    run_at = now;
    locked_at = none;
    completed_at = none;
  }

  unfoldable pub insert_sql : String → Payload → Sql (Unit {0})
  insert_sql job_type payload now n db =
      (ok tt, record db { task_queue = db.task_queue ++ new_task now n job_type payload ∷ [] })

  unfoldable pub insert : String → Payload → Exec (Unit {0})
  unfolding query insert_sql
  insert job_type payload = query (insert_sql job_type payload)
