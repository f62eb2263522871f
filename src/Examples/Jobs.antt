-- ===== src/Examples/Jobs.antt =====
-- The task queue at concrete tasks.
use gradconnect_api.Common.{
  ℕ, ◌≡◌, ◌<◌, ◌+◌, refl, none, some, List, [], ◌∷◌, length, String, arith,
}
use gradconnect_api.Store.{Db, empty_db, World}
use gradconnect_api.Store.Rows.{fields, Task, pending, dead}
use gradconnect_api.Worker.{next_due, claimed, set_task, claim_next_sql, Dispatcher, handle, poll}
use gradconnect_api.Worker.Claim.{Claim, claim_next_sql-Claim}
use gradconnect_api.Worker.Lifecycle.{
  IsNew, add, claim, Reachable, start, next, IsWellFormed, Reachable-IsWellFormed,
}
use gradconnect_api.Worker.Retries.{fail_all, fail_all-outcome}
use gradconnect_api.Worker.Poll.{Steps, IsPass, KeepsQueue, poll-Steps}
use gradconnect_api.Examples.{test_env, world}

abbrev welcome : Task
welcome = record {
  id = "t1";
  job_type = "email:welcome";
  payload = fields [];
  status = pending;
  attempts = 0;
  max_attempts = 3;
  last_error = none;
  run_at = 4;
  locked_at = none;
  completed_at = none;
}

abbrev earlier : Task
earlier = record welcome { id = "t2"; run_at = 2 }

abbrev two_tasks : Db
two_tasks = record empty_db { task_queue = welcome ∷ earlier ∷ [] }

earliest_is_claimed : (claim_next_sql 5 0 two_tasks).1.task_queue ≡ welcome ∷ claimed 5 earlier ∷ []
unfolding claim_next_sql
earliest_is_claimed = refl

claim_next_sql-Claim_example : Claim 5 two_tasks (claim_next_sql 5 0 two_tasks)
claim_next_sql-Claim_example = claim_next_sql-Claim 5 0 two_tasks

welcome-IsNew : IsNew [] welcome
welcome-IsNew = (refl, refl, omega arith, λ u i. absurd i)

one_due : next_due 5 (welcome ∷ []) ≡ some welcome
unfolding next_due
one_due = refl

running : Reachable (set_task "t1" (claimed 5) (welcome ∷ []))
running =
    next (welcome ∷ []) _ (next [] _ start (add [] welcome welcome-IsNew))
      (claim (welcome ∷ []) 5 welcome one_due)

Reachable-IsWellFormed_example : IsWellFormed (set_task "t1" (claimed 5) (welcome ∷ []))
Reachable-IsWellFormed_example =
    Reachable-IsWellFormed (set_task "t1" (claimed 5) (welcome ∷ [])) running

abbrev two_more : List (ℕ × String)
two_more = (200, "smtp") ∷ (600, "smtp") ∷ []

fail_all-outcome_example :
    (0 + length two_more + 1 < 3
      → ((fail_all ((5, "smtp") ∷ two_more) welcome).status ≡ pending)
        × ((fail_all ((5, "smtp") ∷ two_more) welcome).attempts ≡ 0 + length two_more + 1))
    × (0 + length two_more + 1 ≡ 3
        → ((fail_all ((5, "smtp") ∷ two_more) welcome).status ≡ dead)
          × ((fail_all ((5, "smtp") ∷ two_more) welcome).attempts ≡ 3))
fail_all-outcome_example = fail_all-outcome (5, "smtp") two_more welcome refl

-- A handler that does nothing, for every type.
abbrev mailing : Dispatcher
mailing = record { handlers = λ job_type. some (λ payload w. (none, w)) }

mailing-KeepsQueue : KeepsQueue mailing
unfolding handle
mailing-KeepsQueue job_type payload w = refl

abbrev at_work : World
at_work = record world { db = two_tasks }

poll-Steps_example :
    Steps two_tasks.task_queue (poll ⦃env = test_env⦄ mailing at_work).db.task_queue
    × IsPass ⦃env = test_env⦄ mailing at_work (poll ⦃env = test_env⦄ mailing at_work).db.task_queue
poll-Steps_example = poll-Steps ⦃env = test_env⦄ mailing at_work mailing-KeepsQueue
