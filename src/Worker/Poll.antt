-- ===== src/Worker/Poll.antt =====
-- One pass of a worker is a run of the statements of the task's life (internal/worker/worker.go, `Run`).
use gradconnect_api.Common.{
  ℕ, String, ◌≡◌, ◌≢◌, ◌⊎◌, ◌+◌, leb, Bool, true, false, refl, sym, ap, subst, inl, inr, Option,
  none, some, List, In, Bool-cases, eq_refl, ◌==◌, In-update_where_intro,
}
use gradconnect_api.Store.{failure, Result, err, Sql, Env, Db, World, tick, query}
use gradconnect_api.Store.Transactions.{query-tables}
use gradconnect_api.Store.Rows.{Payload, Task, processing, completed}
use gradconnect_api.Worker.{
  next_due, claimed, finished, failed_again, set_task, claim_row, claim_next, claim_next_sql,
  mark_completed, mark_completed_sql, mark_failed, mark_failed_sql, Dispatcher, handle, settle,
  work_on, poll,
}
use gradconnect_api.Worker.Claim.{next_due-IsFirstDue}
use gradconnect_api.Worker.Lifecycle.{Step, claim, succeed, fail}

pub data Steps : List Task → List Task → Type 0 where
  done : (queue : List Task) → Steps queue queue
  then_ : (queue mid after : List Task) → Step queue mid → Steps mid after → Steps queue after

one-Step : {queue after : List Task} → Step queue after → Steps queue after
one-Step {queue} {after} s = then_ queue after after s (done after)

-- A handler that does not write the queue.
abbrev pub KeepsQueue : Dispatcher → Type 0
KeepsQueue d =
    (job_type : String) (payload : Payload) (w : World)
    → (handle d job_type payload w).1.db.task_queue ≡ w.db.task_queue

-- How a pass leaves the queue in which it has claimed the task with the id, by what the handler returned
-- and whether the driver failed the last UPDATE.
abbrev pub IsSettled : String → Option String → Bool → ℕ → List Task → List Task → Type 0
IsSettled id result failed now queue after =
    ((failed ≡ true) × (after ≡ queue))
    ⊎ ((failed ≡ false)
        × (result ≡ none)
        × (after ≡ set_task id (finished now) queue)
        × ((r : Task) × In r after × (r.id ≡ id) × (r.status ≡ completed)))
    ⊎ ((message : String) × (failed ≡ false)
        × (result ≡ some message)
        × (after ≡ set_task id (failed_again now message) queue)
        × ((r : Task) × In r after
            × (r.id ≡ id)
            × (r.status ≢ completed)
            × (r.last_error ≡ some message)))

failed_again-fields :
    (now : ℕ) (message : String) (t : Task)
    → ((failed_again now message t).id ≡ t.id)
      × ((failed_again now message t).status ≢ completed)
      × ((failed_again now message t).last_error ≡ some message)
failed_again-fields now message t = elim (Bool-cases (leb t.max_attempts (t.attempts + 1))) [
  | inl last ↦ rw last (refl, (λ e. cc e), refl)
  | inr more ↦ rw more (refl, (λ e. cc e), refl)
]

set_task-In :
    (f : Task → Task) (queue : List Task) (t : Task) → In t queue → In (f t) (set_task t.id f queue)
unfolding set_task
set_task-In f queue t there =
    rw (eq_refl t.id) at (In-update_where_intro (λ u. u.id == t.id) f queue t there)

module _ ⦃env : Env⦄ where
  query-lost :
      {A : Type 0} (f : Sql A) (w : World)
      → env.fails w.queries ≡ true
      → query f w ≡ (err failure, tick w)
  unfolding query
  query-lost f w lost = rw lost refl

  query-ran :
      {A : Type 0} (f : Sql A) (w : World)
      → env.fails w.queries ≡ false
      → query f w
        ≡ ((f w.now w.queries w.db).0, record (tick w) { db = (f w.now w.queries w.db).1 })
  unfolding query
  query-ran f w ran = rw ran refl

  settle-IsSettled :
      (t : Task) (result : Option String) (w : World)
      → In t w.db.task_queue
      → IsSettled t.id result
          (env.fails w.queries)
          w.now
          w.db.task_queue
          (settle t.id (result, w)).db.task_queue
  unfolding mark_completed mark_completed_sql mark_failed mark_failed_sql
  settle-IsSettled t none w there =
      let P : Db → Type 0 =
        λ db. IsSettled t.id none (env.fails w.queries) w.now w.db.task_queue db.task_queue in
      elim (Bool-cases (env.fails w.queries)) [
        | inl lost ↦
            let same = ap (λ out. out.1.db) (query-lost (mark_completed_sql t.id) w lost) in
            subst P (sym same) (inl (lost, refl))
        | inr ran ↦
            let same = ap (λ out. out.1.db) (query-ran (mark_completed_sql t.id) w ran) in
            let row = set_task-In (finished w.now) w.db.task_queue t there in
            subst P (sym same) (inr (inl (ran, refl, refl, (finished w.now t, row, refl, refl))))
      ]
  settle-IsSettled t (some message) w there =
      let P : Db → Type 0 = λ db.
        IsSettled t.id (some message) (env.fails w.queries) w.now w.db.task_queue db.task_queue in
      elim (Bool-cases (env.fails w.queries)) [
        | inl lost ↦
            let same = ap (λ out. out.1.db) (query-lost (mark_failed_sql t.id message) w lost) in
            subst P (sym same) (inl (lost, refl))
        | inr ran ↦
            let same = ap (λ out. out.1.db) (query-ran (mark_failed_sql t.id message) w ran) in
            let row = set_task-In (failed_again w.now message) w.db.task_queue t there in
            let (its, open_, why) = failed_again-fields w.now message t in
            subst P (sym same) (
              inr (
                inr
                  (message, ran, refl, refl, (failed_again w.now message t, row, its, open_, why))))
      ]

  -- One pass: no task is due, or the driver fails the claim; or the first due one is claimed, handled,
  -- and settled by what its handler returned.
  abbrev pub IsPass : Dispatcher → World → List Task → Type 0
  IsPass d w after =
      (((env.fails w.queries ≡ true) ⊎ (next_due w.now w.db.task_queue ≡ none))
        × (after ≡ w.db.task_queue))
      ⊎ ((u : Task) × (env.fails w.queries ≡ false)
          × (next_due w.now w.db.task_queue ≡ some u)
          × (let mid = set_task u.id (claimed w.now) w.db.task_queue in
              let out =
                handle d u.job_type u.payload
                  (record (tick w) { db = record w.db { task_queue = mid } }) in
              IsSettled u.id out.0 (env.fails out.1.queries) out.1.now mid after))

  claim_row-IsPass :
      (d : Dispatcher) (w : World) (o : Option Task)
      → KeepsQueue d
      → env.fails w.queries ≡ false
      → next_due w.now w.db.task_queue ≡ o
      → IsPass d w
          (work_on d (
            (claim_row w.now o w.db).0,
            record (tick w) { db = (claim_row w.now o w.db).1 },
          )).db.task_queue
  unfolding set_task
  claim_row-IsPass d w none keeps ran e = inl (inr e, refl)
  claim_row-IsPass d w (some u) keeps ran e =
      let mid : List Task = set_task u.id (claimed w.now) w.db.task_queue in
      let w1 : World = record (tick w) { db = record w.db { task_queue = mid } } in
      let (there, _, _) = next_due-IsFirstDue w.now w.db.task_queue u e in
      let held : In (claimed w.now u) mid = set_task-In (claimed w.now) w.db.task_queue u there in
      let out : Option String × World = handle d u.job_type u.payload w1 in
      let same : out.1.db.task_queue ≡ mid = keeps u.job_type u.payload w1 in
      inr (
        u,
        ran,
        e,
        subst
            (λ q.
              IsSettled u.id out.0 (env.fails out.1.queries) out.1.now q
                (settle u.id out).db.task_queue)
            same
            (settle-IsSettled (claimed w.now u) out.0 out.1
              (subst (λ q. In (claimed w.now u) q) (sym same) held)),
      )

  settle-Steps :
      (t : Task) (result : Option String) (w : World)
      → In t w.db.task_queue
      → t.status ≡ processing
      → Steps w.db.task_queue (settle t.id (result, w)).db.task_queue
  unfolding mark_completed mark_completed_sql mark_failed mark_failed_sql
  settle-Steps t none w there runs = elim (query-tables (mark_completed_sql t.id) w) [
    | inl same ↦ subst (λ db. Steps w.db.task_queue db.task_queue) (sym same) (done w.db.task_queue)
    | inr ran ↦
        subst (λ db. Steps w.db.task_queue db.task_queue) (sym ran)
          (one-Step (succeed w.db.task_queue w.now t there runs))
  ]
  settle-Steps t (some message) w there runs =
      elim (query-tables (mark_failed_sql t.id message) w) [
        | inl same ↦
            subst (λ db. Steps w.db.task_queue db.task_queue) (sym same) (done w.db.task_queue)
        | inr ran ↦
            subst (λ db. Steps w.db.task_queue db.task_queue) (sym ran)
              (one-Step (fail w.db.task_queue w.now message t there runs))
      ]

  claim_row-Steps :
      (d : Dispatcher) (w : World) (o : Option Task) (db : Db)
      → KeepsQueue d
      → next_due w.now db.task_queue ≡ o
      → Steps db.task_queue
          (work_on d
            ((claim_row w.now o db).0, record w { db = (claim_row w.now o db).1 })).db.task_queue
  unfolding set_task
  claim_row-Steps d w none db keeps e = done db.task_queue
  claim_row-Steps d w (some u) db keeps e =
      let mid : List Task = set_task u.id (claimed w.now) db.task_queue in
      let w1 : World = record w { db = record db { task_queue = mid } } in
      let (there, _, _) = next_due-IsFirstDue w.now db.task_queue u e in
      let held : In (claimed w.now u) mid =
        rw (eq_refl u.id) at
          (In-update_where_intro (λ t. t.id == u.id) (claimed w.now) db.task_queue u there) in
      let out : Option String × World = handle d u.job_type u.payload w1 in
      let same : out.1.db.task_queue ≡ mid = keeps u.job_type u.payload w1 in
      then_ db.task_queue mid _ (claim db.task_queue w.now u e) (
        subst (λ q. Steps q (settle u.id out).db.task_queue) same
          (settle-Steps (claimed w.now u) out.0 out.1
            (subst (λ q. In (claimed w.now u) q) (sym same) held) refl))

  poll-IsPass : (d : Dispatcher) (w : World) → KeepsQueue d → IsPass d w (poll d w).db.task_queue
  unfolding poll claim_next claim_next_sql
  poll-IsPass d w keeps =
      let P : Result Task × World → Type 0 = λ c. IsPass d w (work_on d c).db.task_queue in
      elim (Bool-cases (env.fails w.queries)) [
        | inl lost ↦ subst P (sym (query-lost claim_next_sql w lost)) (inl (inl lost, refl))
        | inr ran ↦
            subst P (sym (query-ran claim_next_sql w ran))
              (claim_row-IsPass d w (next_due w.now w.db.task_queue) keeps ran refl)
      ]

  -- If the handlers do not write the queue, one pass of the loop changes it by steps of the life of its
  -- tasks, and does so like this: if no task is due or the driver fails the claim, not at all; otherwise
  -- the first due task is claimed and handled, and then it is completed if its handler returned no error,
  -- and marked as failed with the message if it returned one, unless the driver fails that UPDATE.
  pub poll-Steps :
      (d : Dispatcher) (w : World)
      → KeepsQueue d
      → Steps w.db.task_queue (poll d w).db.task_queue × IsPass d w (poll d w).db.task_queue
  unfolding poll claim_next claim_next_sql query
  poll-Steps d w keeps = (
    elim (Bool-cases (env.fails w.queries)) [
      | inl e ↦ rw e (done w.db.task_queue)
      | inr e ↦ rw e (claim_row-Steps d (tick w) (next_due w.now w.db.task_queue) w.db keeps refl)
    ],
    poll-IsPass d w keeps,
  )
