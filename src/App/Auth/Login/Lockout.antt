-- ===== src/App/Auth/Login/Lockout.antt =====
-- Guessing a password (internal/app/auth.go, `loginUserHandler`, with internal/ratelimit).
use gradconnect_api.Common.{
  ℕ, ◌+◌, ◌*◌, ◌≤◌, ◌<◌, String, ◌≡◌, refl, subst, true, false, none, some, List, [], ◌∷◌, ◌==◌,
  ◌+++◌, eq_refl, arith, length, find_first, All,
}
use gradconnect_api.Ratelimit.{MemoryLimiter, allow, peek, drop_expired}
use gradconnect_api.Validator.{valid, new}
use gradconnect_api.Store.{Env, World, ok, tick, query}
use gradconnect_api.Store.Rows.{AppUser}
use gradconnect_api.Data.Users
use gradconnect_api.Data.Users.Passwords.{password_matches}
use gradconnect_api.Data.Users.Validation.{LoginUserInput, validate_login_user_input}
use gradconnect_api.App.Http.{
  Request, Response, decoded, read_json, attempt, rate_limit_exceeded_response,
}
use gradconnect_api.App.Auth.Steps.{minute, when_valid, when_allowed, count_failure}
use gradconnect_api.App.Auth.Login.{check_password, login_user_handler}

-- A sign-in at a time.
abbrev pub Guess : Type 0
Guess = ℕ × Request × LoginUserInput

abbrev pub window : ℕ
window = 15 * minute

abbrev pub Counted : String → ℕ → ℕ → MemoryLimiter → Type 0
Counted key n expiry l = l.entries key ≡ some (record { count = n; expires_at = expiry })

allow-Counted :
    (key : String) (n expiry now : ℕ) (l : MemoryLimiter)
    → n < 5
    → now ≤ expiry
    → Counted key n expiry l
    → Counted key (n + 1) expiry (allow key 5 window now l).1
unfolding allow
allow-Counted key n expiry now l small soon h = ground (arith, eq_refl key)

allow-first :
    (key : String) (now : ℕ) (l : MemoryLimiter)
    → drop_expired now (l.entries key) ≡ none
    → Counted key 1 (now + window) (allow key 5 window now l).1
unfolding allow
allow-first key now l h = ground (arith, eq_refl key)

peek-free :
    (key : String) (n expiry now : ℕ) (l : MemoryLimiter)
    → n < 5
    → Counted key n expiry l
    → (peek key 5 window now l).0 ≡ true
unfolding peek
peek-free key n expiry now l small h = ground arith

peek-first :
    (key : String) (now : ℕ) (l : MemoryLimiter)
    → drop_expired now (l.entries key) ≡ none
    → (peek key 5 window now l).0 ≡ true
unfolding peek
peek-first key now l h = ground arith

peek-locked :
    (key : String) (expiry now : ℕ) (l : MemoryLimiter)
    → now ≤ expiry
    → Counted key 5 expiry l
    → (peek key 5 window now l).0 ≡ false
unfolding peek
peek-locked key expiry now l soon h = ground arith

module _ ⦃env : Env⦄ where
  unfoldable pub login_at : Guess → World → Response × World
  login_at (t, req, input) w = login_user_handler req (decoded input true) (record w { now = t })

  unfoldable pub guess_all : List Guess → World → World
  guess_all [] w = w
  guess_all (g ∷ gs) w = guess_all gs (login_at g w).1

module _ ⦃env : Env⦄ (row : AppUser) (email : String) where
  -- An acceptable input for the address, with a password that is not that of the row, in time.
  abbrev pub IsWrong : ℕ → Guess → Type 0
  IsWrong expiry (t, req, input) =
      (input.email ≡ email)
      × (valid (validate_login_user_input input new) ≡ true)
      × (t ≤ expiry)
      × (password_matches row.password_hash input.password ≡ ok false)

  -- The row is the one that a sign-in reads, and no statement fails.
  abbrev pub IsStored : World → Type 0
  IsStored w =
      (find_first (λ r. r.email == email) w.db.app_user ≡ some row)
      × ((n : ℕ) → env.fails n ≡ false)

  wrong_guess :
      (expiry : ℕ) (g : Guess) (w : World)
      → IsStored w
      → IsWrong expiry g
      → (peek ("login-failures:" +++ email) 5 window g.0 w.limiter).0 ≡ true
      → (login_at g w).1
        ≡ count_failure ("login-failures:" +++ email) 5 window (tick (record w { now = g.0 }))
  unfolding login_at login_user_handler read_json when_valid when_allowed attempt query
      Users.get_by_email_including_deleted Users.get_by_email_including_deleted_sql check_password
  wrong_guess expiry (t, req, input) w (there, up) (same, accepted, soon, wrong) free =
      simp (same, accepted, free, up, there, wrong)

  abbrev key : String
  key = "login-failures:" +++ email

  guess-Counted :
      (n expiry : ℕ) (g : Guess) (w : World)
      → IsStored w
      → IsWrong expiry g
      → n < 5
      → Counted key n expiry w.limiter
      → Counted key (n + 1) expiry (login_at g w).1.limiter × IsStored (login_at g w).1
  unfolding count_failure
  guess-Counted n expiry g w stored wrong small h =
      let (_, _, soon, _) = wrong in
      rw (wrong_guess expiry g w stored wrong (peek-free key n expiry g.0 w.limiter small h))
        (allow-Counted key n expiry g.0 w.limiter small soon h, stored)

  guess_all-Counted :
      (n expiry : ℕ) (gs : List Guess) (w : World)
      → IsStored w
      → All (IsWrong expiry) gs
      → n + length gs ≤ 5
      → Counted key n expiry w.limiter
      → Counted key (n + length gs) expiry (guess_all gs w).limiter
  unfolding guess_all
  guess_all-Counted n expiry [] w stored wrong small h =
      subst (λ m. Counted key m expiry w.limiter) (omega arith) h
  guess_all-Counted n expiry (g ∷ gs) w stored (bad, worse) small h =
      let (counted, still) = guess-Counted n expiry g w stored bad (omega (arith, small)) h in
      subst (λ m. Counted key m expiry (guess_all gs (login_at g w).1).limiter) (omega arith)
        (guess_all-Counted (n + 1) expiry gs (login_at g w).1 still worse (omega (arith, small))
          counted)

  -- Five wrong passwords for the address of an account, the first when no failure is counted and the
  -- others within 15 minutes of it, lock the address, if no statement fails: until those 15 minutes have passed, a sign-in
  -- with any acceptable input for it, the right password included, is answered with a 429, and changes
  -- no table.
  pub login_user_handler-lockout :
      (first : Guess) (others : List Guess) (w : World) (last : Guess)
      → IsStored w
      → drop_expired first.0 (w.limiter.entries ("login-failures:" +++ email)) ≡ none
      → IsWrong (first.0 + window) first
      → All (IsWrong (first.0 + window)) others
      → length others ≡ 4
      → last.2.email ≡ email
      → valid (validate_login_user_input last.2 new) ≡ true
      → last.0 ≤ first.0 + window
      → ((login_at last (guess_all (first ∷ others) w)).0.status ≡ 429)
        × ((login_at last (guess_all (first ∷ others) w)).1.db ≡ (guess_all (first ∷ others) w).db)
  unfolding guess_all login_at login_user_handler read_json when_valid when_allowed count_failure
      rate_limit_exceeded_response
  login_user_handler-lockout first others w (t, req, input) stored fresh bad worse four same
        accepted soon =
      let expiry : ℕ = first.0 + window in
      let one : Counted key 1 expiry (login_at first w).1.limiter × IsStored (login_at first w).1 =
        rw (wrong_guess expiry first w stored bad (peek-first key first.0 w.limiter fresh))
          (allow-first key first.0 w.limiter fresh, stored) in
      let five : Counted key 5 expiry (guess_all others (login_at first w).1).limiter =
        subst (λ m. Counted key m expiry (guess_all others (login_at first w).1).limiter)
          (omega (arith, four))
          (guess_all-Counted 1 expiry others (login_at first w).1 one.1 worse (omega (arith, four))
            one.0) in
      simp
        (
          same,
          accepted,
          peek-locked key expiry t (guess_all others (login_at first w).1).limiter soon five,
        )
        (refl, refl)
