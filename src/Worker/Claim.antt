-- ===== src/Worker/Claim.antt =====
-- Which task a worker takes (internal/worker/worker.go, `claimNext`).
use gradconnect_api.Common.{
  ℕ, ◌≤◌, ◌≡◌, ◌≢◌, refl, subst, inl, inr, Bool, true, false, Option, none, some, List, [], ◌∷◌,
  ◌==◌, eq_refl, arith, leb, leb→le, leb_iff, if-cases, In, Bool-cases, In-update_where_intro,
  eq-eq-false,
}
use gradconnect_api.Store.{record_not_found, Result, ok, err, Db}
use gradconnect_api.Store.Rows.{Task, TaskStatus, pending}
use gradconnect_api.Worker.{
  is_pending, is_due, sooner, next_due, claimed, set_task, claim_row, claim_next_sql,
}

abbrev pub IsDue : ℕ → Task → Type 0
IsDue now t = (t.status ≡ pending) × (t.run_at ≤ now)

-- A task of the queue that is due, and that no other due task precedes.
abbrev pub IsFirstDue : ℕ → List Task → Task → Type 0
IsFirstDue now queue t =
    In t queue × IsDue now t × ((u : Task) → In u queue → IsDue now u → t.run_at ≤ u.run_at)

is_pending-ok : (s : TaskStatus) → is_pending s ≡ true → s ≡ pending
is_pending-ok pending h = refl
is_pending-ok _ h = cc

is_due-IsDue : (now : ℕ) (t : Task) → is_due now t ≡ true → IsDue now t
is_due-IsDue now t h = (is_pending-ok t.status (ground arith), leb→le t.run_at now (ground arith))

is_due_complete : (now : ℕ) (t : Task) → IsDue now t → is_due now t ≡ true
is_due_complete now t (s, r) = simp (s, (leb_iff t.run_at now).1 r)

clash : {b : Bool} → b ≡ false → b ≡ true → ⊥
clash f t = cc (f, t)

-- What `next_due` finds in a queue.
abbrev Found : ℕ → List Task → Option Task → Type 0
Found now queue none = (u : Task) → In u queue → is_due now u ≡ false
Found now queue (some t) =
    In t queue
    × (is_due now t ≡ true)
    × ((u : Task) → In u queue → is_due now u ≡ true → t.run_at ≤ u.run_at)

sooner-Found :
    (now : ℕ) (t : Task) (queue : List Task) (o : Option Task)
    → is_due now t ≡ true
    → Found now queue o
    → Found now (t ∷ queue) (some (sooner t o))
sooner-Found now t queue none due h = (
  inl refl,
  due,
  λ u i d. elim i [ inl same ↦ rw same (omega arith) | inr later ↦ absurd (cc (d, h u later)) ],
)
sooner-Found now t queue (some v) due (there, is, first) =
    if-cases (λ x. Found now (t ∷ queue) (some x)) (leb t.run_at v.run_at) t v
      (λ e. (
        inl refl,
        due,
        λ u i d. elim i [
          | inl same ↦ rw same (omega arith)
          | inr later ↦ omega (arith, leb→le t.run_at v.run_at e, first u later d)
        ],
      ))
      (λ e. (
        inr there,
        is,
        λ u i d. elim i [ inl same ↦ rw same (ground arith) | inr later ↦ first u later d ],
      ))

later-Found :
    (now : ℕ) (t : Task) (queue : List Task) (o : Option Task)
    → is_due now t ≡ false
    → Found now queue o
    → Found now (t ∷ queue) o
later-Found now t queue none due h =
    λ u i. elim i [ inl same ↦ rw same due | inr later ↦ h u later ]
later-Found now t queue (some v) due (there, is, first) = (
  inr there,
  is,
  λ u i d. elim i [
    | inl same ↦ absurd (clash due (subst (λ x. is_due now x ≡ true) same d))
    | inr later ↦ first u later d
  ],
)

next_due-Found : (now : ℕ) (queue : List Task) → Found now queue (next_due now queue)
unfolding next_due
next_due-Found now [] = λ u i. absurd i
next_due-Found now (t ∷ queue) = elim (Bool-cases (is_due now t)) [
  | inl e ↦ rw e (sooner-Found now t queue (next_due now queue) e (next_due-Found now queue))
  | inr e ↦ rw e (later-Found now t queue (next_due now queue) e (next_due-Found now queue))
]

Found-IsFirstDue :
    (now : ℕ) (queue : List Task) (t : Task) → Found now queue (some t) → IsFirstDue now queue t
Found-IsFirstDue now queue t (there, due, first) =
    (there, is_due-IsDue now t due, λ u i d. first u i (is_due_complete now u d))

pub next_due-IsFirstDue :
    (now : ℕ) (queue : List Task) (t : Task) → next_due now queue ≡ some t → IsFirstDue now queue t
next_due-IsFirstDue now queue t e =
    Found-IsFirstDue now queue t (subst (λ o. Found now queue o) e (next_due-Found now queue))

-- What a claim does: with no due task, nothing. Else it takes a due task that no other due task
-- precedes, marks its row, and leaves every row of another id as it was.
abbrev pub Claim : ℕ → Db → Result Task × Db → Type 0
Claim now before (err e, after) =
    (e ≡ record_not_found)
    × (after ≡ before)
    × ((u : Task) → In u before.task_queue → ¬ (IsDue now u))
Claim now before (ok t, after) =
    (u : Task) × IsFirstDue now before.task_queue u
    × (t ≡ claimed now u)
    × In t after.task_queue
    × ((v : Task) → In v before.task_queue → v.id ≢ u.id → In v after.task_queue)

claim_row-Claim :
    (now : ℕ) (o : Option Task) (db : Db)
    → Found now db.task_queue o
    → Claim now db (claim_row now o db)
unfolding set_task
claim_row-Claim now none db h = (refl, refl, λ u i d. clash (h u i) (is_due_complete now u d))
claim_row-Claim now (some u) db (there, due, first) = (
  u,
  Found-IsFirstDue now db.task_queue u (there, due, first),
  refl,
  (rw (eq_refl u.id) at
      (In-update_where_intro (λ t. t.id == u.id) (claimed now) db.task_queue u there)),
  λ v i other.
      rw (eq-eq-false v.id u.id other) at
        (In-update_where_intro (λ t. t.id == u.id) (claimed now) db.task_queue v i),
)

-- A claim takes the due task that has waited longest, and every row of another id stays; it takes none
-- only if no task is due.
pub claim_next_sql-Claim : (now n : ℕ) (db : Db) → Claim now db (claim_next_sql now n db)
unfolding claim_next_sql
claim_next_sql-Claim now n db =
    claim_row-Claim now (next_due now db.task_queue) db (next_due-Found now db.task_queue)
