-- ===== src/Worker/Lifecycle.antt =====
-- The life of a task (internal/worker/worker.go), whatever the order in which workers claim and settle
-- tasks and requests add them.
use gradconnect_api.Common.{
  ℕ, ◌+◌, ◌≤◌, ◌<◌, String, ◌≡◌, ◌≢◌, refl, sym, ap, subst, ◌∙◌, ◌⊎◌, inl, inr, some, List, [], ◌∷◌,
  ◌++◌, ◌==◌, eq_iff, arith, leb, leb→le, if◌then◌else◌, if-cases, In, Bool-cases, In-append,
  In-update_where,
}
use gradconnect_api.Store.Rows.{Task, pending, processing, dead}
use gradconnect_api.Worker.{next_due, claimed, finished, failed_again, set_task}
use gradconnect_api.Worker.Claim.{next_due-IsFirstDue}

-- A task that a request adds: a new id, no attempt yet, and at least one allowed.
abbrev pub IsNew : List Task → Task → Type 0
IsNew queue t =
    (t.status ≡ pending)
    × (t.attempts ≡ 0)
    × (0 < t.max_attempts)
    × ((u : Task) → In u queue → u.id ≢ t.id)

-- One statement on the queue. A worker settles the task that it has claimed: until then the row says
-- that it is being processed.
pub data Step : List Task → List Task → Type 0 where
  add : (queue : List Task) (t : Task) → IsNew queue t → Step queue (queue ++ t ∷ [])
  claim :
      (queue : List Task) (now : ℕ) (t : Task)
      → next_due now queue ≡ some t
      → Step queue (set_task t.id (claimed now) queue)
  succeed :
      (queue : List Task) (now : ℕ) (t : Task)
      → In t queue
      → t.status ≡ processing
      → Step queue (set_task t.id (finished now) queue)
  fail :
      (queue : List Task) (now : ℕ) (message : String) (t : Task)
      → In t queue
      → t.status ≡ processing
      → Step queue (set_task t.id (failed_again now message) queue)

-- The queues that a run from the empty one passes through.
pub data Reachable : List Task → Type 0 where
  start : Reachable []
  next : (queue after : List Task) → Reachable queue → Step queue after → Reachable after

-- Attempts are counted, never more than allowed; a task that waits or runs has one left, and one is
-- dead exactly when none is left.
pub record IsSound (t : Task) : Type 0 where
  pub bounded : t.attempts ≤ t.max_attempts
  pub waiting : t.status ≡ pending → t.attempts < t.max_attempts
  pub running : t.status ≡ processing → t.attempts < t.max_attempts
  pub buried : t.status ≡ dead → t.attempts ≡ t.max_attempts

-- Every task is sound, and no two rows have one id.
abbrev pub IsWellFormed : List Task → Type 0
IsWellFormed queue =
    ((t : Task) → In t queue → IsSound t)
    × ((t u : Task) → In t queue → In u queue → t.id ≡ u.id → t ≡ u)

new-IsSound : (queue : List Task) (t : Task) → IsNew queue t → IsSound t
new-IsSound queue t (s, a, m, fresh) = record {
  bounded = omega (arith, a);
  waiting = λ e. omega (arith, a, m);
  running = λ e. absurd (cc (s, e));
  buried = λ e. absurd (cc (s, e));
}

claimed-IsSound : (now : ℕ) (t : Task) → t.status ≡ pending → IsSound t → IsSound (claimed now t)
claimed-IsSound now t s h = record {
  bounded = h.bounded;
  waiting = λ e. cc;
  running = λ e. h.waiting s;
  buried = λ e. cc;
}

finished-IsSound : (now : ℕ) (t : Task) → IsSound t → IsSound (finished now t)
finished-IsSound now t h = record {
  bounded = h.bounded;
  waiting = λ e. cc;
  running = λ e. cc;
  buried = λ e. cc;
}

failed_again-IsSound :
    (now : ℕ) (message : String) (t : Task)
    → t.status ≡ processing
    → IsSound t
    → IsSound (failed_again now message t)
failed_again-IsSound now message t s h =
    let left = h.running s in
    if-cases IsSound (leb t.max_attempts (t.attempts + 1)) _ _
      (λ e. record {
        bounded = omega (arith, left);
        waiting = λ e. cc;
        running = λ e. cc;
        buried = λ d. omega (arith, left, leb→le t.max_attempts (t.attempts + 1) e);
      })
      (λ e. record {
        bounded = omega (arith, left);
        waiting = λ p. ground arith;
        running = λ e. cc;
        buried = λ e. cc;
      })

-- A change of the row of a task keeps the queue well-formed, if it keeps the id and that row sound.
set_task-IsWellFormed :
    (queue : List Task) (t : Task) (f : Task → Task)
    → In t queue
    → IsWellFormed queue
    → ((u : Task) → (f u).id ≡ u.id)
    → IsSound (f t)
    → IsWellFormed (set_task t.id f queue)
unfolding set_task
set_task-IsWellFormed queue t f there (sound, unique) kept ok = (
  λ r i.
      let (a, j, same) = In-update_where (λ u. u.id == t.id) f queue r i in
      elim (Bool-cases (a.id == t.id)) [
        | inl e ↦
            let row : a ≡ t = unique a t j there ((eq_iff a.id t.id).0 e) in
            let is : r ≡ f t = (rw e at same) ∙ ap f row in subst IsSound (sym is) ok
        | inr e ↦ let is : r ≡ a = rw e at same in subst IsSound (sym is) (sound a j)
      ],
  λ r s i k same.
      let (a, j, ra) = In-update_where (λ u. u.id == t.id) f queue r i in
      let (b, l, sb) = In-update_where (λ u. u.id == t.id) f queue s k in
      let one : a ≡ b = unique a b j l (sym (keeps a ra) ∙ same ∙ keeps b sb) in
      ra ∙ ap (λ a. if a.id == t.id then f a else a) one ∙ sym sb,
)
  where
    keeps : (a : Task) {r : Task} → r ≡ (if a.id == t.id then f a else a) → r.id ≡ a.id
    keeps a {r} e =
        subst (λ x. x.id ≡ a.id) (sym e)
          (if-cases (λ x. x.id ≡ a.id) (a.id == t.id) (f a) a (λ _. kept a) (λ _. refl))

failed_again-id : (now : ℕ) (message : String) (t : Task) → (failed_again now message t).id ≡ t.id
failed_again-id now message t =
    if-cases (λ (x : Task). x.id ≡ t.id) (leb t.max_attempts (t.attempts + 1)) _ _ (λ _. refl)
      (λ _. refl)

add-IsWellFormed :
    (queue : List Task) (t : Task)
    → IsNew queue t
    → IsWellFormed queue
    → IsWellFormed (queue ++ t ∷ [])
add-IsWellFormed queue t new (sound, unique) = (
  λ r i. elim (last r i) [
    | inl old ↦ sound r old
    | inr same ↦ subst IsSound (sym same) (new-IsSound queue t new)
  ],
  λ r s i k same. elim (last r i) [
    | inl old ↦ elim (last s k) [
      | inl old' ↦ unique r s old old' same
      | inr is ↦ absurd (apart r old (same ∙ ap (λ x. x.id) is))
    ]
    | inr is ↦ elim (last s k) [
      | inl old' ↦ absurd (apart s old' (sym same ∙ ap (λ x. x.id) is))
      | inr is' ↦ is ∙ sym is'
    ]
  ],
)
  where
    last : (r : Task) → In r (queue ++ t ∷ []) → In r queue ⊎ (r ≡ t)
    last r i = elim (In-append r queue (t ∷ []) i) [
      | inl old ↦ inl old
      | inr here ↦ elim here [ inl same ↦ inr same | inr nowhere ↦ absurd nowhere ]
    ]

    apart : (r : Task) → In r queue → r.id ≢ t.id
    apart = let (_, _, _, fresh) = new in fresh

pub Step-IsWellFormed :
    (queue after : List Task) → Step queue after → IsWellFormed queue → IsWellFormed after
Step-IsWellFormed _ _ (add queue t new) w = add-IsWellFormed queue t new w
Step-IsWellFormed _ _ (claim queue now t e) w =
    let (there, (waits, _), _) = next_due-IsFirstDue now queue t e in
    set_task-IsWellFormed queue t (claimed now) there w (λ u. refl)
      (claimed-IsSound now t waits (w.0 t there))
Step-IsWellFormed _ _ (succeed queue now t there s) w =
    set_task-IsWellFormed queue t (finished now) there w (λ u. refl)
      (finished-IsSound now t (w.0 t there))
Step-IsWellFormed _ _ (fail queue now message t there s) w =
    set_task-IsWellFormed queue t (failed_again now message) there w (failed_again-id now message)
      (failed_again-IsSound now message t s (w.0 t there))

-- In every queue that is reached from the empty one by adding tasks, claims, successes and failures,
-- in any order, no two rows have one id, no task has made more attempts than it may, one that waits or
-- runs has an attempt left, and one that is dead has none.
pub Reachable-IsWellFormed : (queue : List Task) → Reachable queue → IsWellFormed queue
Reachable-IsWellFormed _ start = ((λ t i. absurd i), (λ t u i. absurd i))
Reachable-IsWellFormed _ (next queue after r s) =
    Step-IsWellFormed queue after s (Reachable-IsWellFormed queue r)
