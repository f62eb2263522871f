-- ===== src/Worker/Retries.antt =====
-- A task that keeps failing (internal/worker/worker.go, `markFailed`).
use gradconnect_api.Common.{
  ℕ, ◌+◌, ◌*◌, ◌^◌, ◌≤◌, ◌<◌, String, ◌≡◌, refl, sym, subst, true, false, some, List, [], ◌∷◌,
  arith, leb, leb_iff, length,
}
use gradconnect_api.Store.Rows.{Task, pending, dead}
use gradconnect_api.App.Auth.Steps.{minute}
use gradconnect_api.Worker.{claimed, failed_again}

-- A claim at a time, and the failure that ends it.
abbrev pub run_and_fail : ℕ × String → Task → Task
run_and_fail (now, message) t = failed_again now message (claimed now t)

unfoldable pub fail_all : List (ℕ × String) → Task → Task
fail_all [] t = t
fail_all (run ∷ runs) t = fail_all runs (run_and_fail run t)

abbrev retried : ℕ → String → Task → Task
retried now message t = record t {
  status = pending;
  attempts = t.attempts + 1;
  last_error = some message;
  locked_at = some now;
  run_at = now + 2 ^ (t.attempts + 1) * minute;
}

fails_early :
    (now : ℕ) (message : String) (t : Task)
    → t.attempts + 1 < t.max_attempts
    → run_and_fail (now, message) t ≡ retried now message t
fails_early now message t h =
    let e : leb t.max_attempts (t.attempts + 1) ≡ false = ground arith in rw e refl

fails_last :
    (now : ℕ) (message : String) (t : Task)
    → t.max_attempts ≤ t.attempts + 1
    → run_and_fail (now, message) t ≡ record t {
      status = dead;
      attempts = t.attempts + 1;
      last_error = some message;
      locked_at = some now;
    }
fails_last now message t h =
    let e : leb t.max_attempts (t.attempts + 1) ≡ true =
      (leb_iff t.max_attempts (t.attempts + 1)).1 h in
    rw e refl

fail_all-pending :
    (runs : List (ℕ × String)) (t : Task)
    → t.status ≡ pending
    → t.attempts + length runs < t.max_attempts
    → ((fail_all runs t).status ≡ pending) × ((fail_all runs t).attempts ≡ t.attempts + length runs)
unfolding fail_all
fail_all-pending [] t s h = (s, omega arith)
fail_all-pending ((now, message) ∷ runs) t s h =
    let (waits, count) = fail_all-pending runs (retried now message t) refl (omega (arith, h)) in
    let Waits : Task → Type 0 = λ u.
      ((fail_all runs u).status ≡ pending)
      × ((fail_all runs u).attempts ≡ t.attempts + length ((now, message) ∷ runs)) in
    subst Waits (sym (fails_early now message t (omega (arith, h)))) (waits, omega (arith, count))

fail_all-dead :
    (runs : List (ℕ × String)) (now : ℕ) (message : String) (t : Task)
    → t.attempts + length runs + 1 ≡ t.max_attempts
    → ((fail_all runs (run_and_fail (now, message) t)).status ≡ dead)
      × ((fail_all runs (run_and_fail (now, message) t)).attempts ≡ t.max_attempts)
unfolding fail_all
fail_all-dead [] now message t h =
    rw (fails_last now message t (omega (arith, h))) (refl, omega (arith, h))
fail_all-dead ((later, again) ∷ runs) now message t h =
    rw (fails_early now message t (omega (arith, h)))
      (fail_all-dead runs later again (retried now message t) (omega (arith, h)))

-- A pending task whose every run fails is pending, with each failure counted, as long as the failures
-- are fewer than the attempts that it has left; with as many failures, and at least one, it is dead.
pub fail_all-outcome :
    (run : ℕ × String) (runs : List (ℕ × String)) (t : Task)
    → t.status ≡ pending
    → (t.attempts + length runs + 1 < t.max_attempts
        → ((fail_all (run ∷ runs) t).status ≡ pending)
          × ((fail_all (run ∷ runs) t).attempts ≡ t.attempts + length runs + 1))
      × (t.attempts + length runs + 1 ≡ t.max_attempts
          → ((fail_all (run ∷ runs) t).status ≡ dead)
            × ((fail_all (run ∷ runs) t).attempts ≡ t.max_attempts))
unfolding fail_all
fail_all-outcome (now, message) runs t s = (
  λ h.
      let (waits, count) = fail_all-pending ((now, message) ∷ runs) t s (omega (arith, h)) in
      (waits, omega (arith, count)),
  λ h. fail_all-dead runs now message t h,
)
