-- ===== src/App/Auth/Passwords/Forgotten.antt =====
-- What `forgotPasswordHandler` (internal/app/auth.go) gives away of the tables.
use gradconnect_api.Common.{
  ℕ, suc, String, ◌≡◌, refl, sym, ◌∙◌, inl, inr, Bool, true, false, not, ◌&&◌, Option, none, some,
  List, ◌==◌, ◌+++◌, any, find_first, find_first-some, if-cases, any_intro, eq_refl, Bool-cases,
}
use gradconnect_api.Ratelimit.{allow}
use gradconnect_api.Validator.{new, valid}
use gradconnect_api.Store.{
  Err, Result, ok, err, Env, empty_db, World, tick, query, finish, in_transaction,
}
use gradconnect_api.Store.Rows.{User, AppUser}
use gradconnect_api.Data.Users
use gradconnect_api.Data.Users.{is_live, scan_user}
use gradconnect_api.Data.Users.Validation.{validate_email}
use gradconnect_api.Data.Tokens
use gradconnect_api.Data.Tokens.{password_reset}
use gradconnect_api.Data.Tasks
use gradconnect_api.App.Http.{
  Response, Decoded, decoded, undecodable, read_json, attempt, attempt-cases, on_result,
  server_error,
}
use gradconnect_api.App.Middleware.{limit_then}
use gradconnect_api.App.Auth.Steps.{hour, when_valid}
use gradconnect_api.App.Auth.Passwords.{
  forgot_response, unknown_address, request_reset, send_link, forgot_password_handler,
}

ok_or_err : {A : Type 0} {r : Result A} {a : A} {e : Err} → r ≡ ok a → r ≡ err e → ⊥
ok_or_err good bad = cc (good, bad)

module _ ⦃env : Env⦄ where
  -- Nothing fails outside the program.
  pub record IsUp : Type 0 where
    pub queries : (n : ℕ) → env.fails n ≡ false
    pub random : (n : ℕ) → (text : String) × (env.random_token n ≡ some text)

  known :
      (p : AppUser → Bool) (rows : List AppUser) (row : AppUser)
      → find_first p rows ≡ some row
      → any (λ r. r.id == row.id) rows ≡ true
  known p rows row e =
      let (there, _) = find_first-some p rows {a = row} e in
      any_intro (λ r. r.id == row.id) rows row there (eq_refl row.id)

  request_reset-succeeds :
      (up : IsUp) (user : User) (w : World)
      → any (λ r. r.id == user.id) w.db.app_user ≡ true
      → (in_transaction (request_reset user) w).0 ≡ ok tt
  unfolding in_transaction request_reset Tokens.new_token Tokens.generate_token
      Tokens.set_token_table Tasks.insert query finish
  request_reset-succeeds up user w h =
      let (text, drew) = up.random (suc w.queries) in simp (up.queries, drew, h)

  send_link-answer :
      (up : IsUp) (user : User) (w : World)
      → any (λ r. r.id == user.id) w.db.app_user ≡ true
      → (send_link user w).0 ≡ forgot_response
  unfolding send_link
  send_link-answer up user w h =
      if-cases (λ (out : Response × World). out.0 ≡ forgot_response)
        (not (user.auth_provider == "email")) _ _ (λ _. refl)
        λ _.
          attempt-cases (λ out. out.0 ≡ forgot_response) (in_transaction (request_reset user))
            server_error (λ done w. (forgot_response, w)) w
            (λ e failed. absurd (ok_or_err (request_reset-succeeds up user w h) failed))
            (λ _ _. refl)

  answer_of :
      (up : IsUp) (email : String) (w : World) (o : Option AppUser)
      → find_first (λ r. r.email == email && is_live r) w.db.app_user ≡ o
      → (on_result (scan_user o) unknown_address send_link (tick w)).0 ≡ forgot_response
  answer_of up email w none e = refl
  answer_of up email w (some row) e =
      send_link-answer up row.user (tick w)
        (known (λ r. r.email == email && is_live r) w.db.app_user row e)

  lookup-answer :
      (up : IsUp) (email : String) (w : World)
      → (attempt (Users.get_by_email email) unknown_address send_link w).0 ≡ forgot_response
  unfolding Users.get_by_email Users.get_by_email_sql query attempt
  lookup-answer up email w =
      rw (up.queries w.queries)
        (answer_of up email w (find_first (λ r. r.email == email && is_live r) w.db.app_user) refl)

  -- The world of a request, but with no row in any table.
  abbrev pub blank : World → World
  blank w = record w { db = empty_db }

  -- As long as no statement fails and random tokens can be drawn, the answer to a forgotten password
  -- is the one that it would be if the tables were empty: it does not depend on whether the address
  -- has an account, nor on how that account signs in.
  pub forgot_password_handler-blank :
      (up : IsUp) (body : Decoded String) (w : World)
      → (forgot_password_handler body w).0 ≡ (forgot_password_handler body (blank w)).0
  unfolding forgot_password_handler read_json when_valid limit_then
  forgot_password_handler-blank up (undecodable e) w = refl
  forgot_password_handler-blank up (decoded email false) w = refl
  forgot_password_handler-blank up (decoded email true) w =
      let (verdict, l) = allow ("forgot-password:" +++ email) 3 hour w.now w.limiter in
      elim (Bool-cases (valid (validate_email email new))) [
        | inr e ↦ rw e refl
        | inl e ↦ rw e (elim (Bool-cases verdict.0) [
          | inr f ↦ rw f refl
          | inl f ↦ rw f (
              lookup-answer up email (record w { limiter = l })
              ∙ sym (lookup-answer up email (blank (record w { limiter = l }))))
        ])
      ]
