-- ===== src/App/Auth/Login/Outcome.antt =====
-- What a sign-in needs, and what every other answer leaves (internal/app/auth.go, `loginUserHandler`).
use gradconnect_api.Common.{
  ◌*◌, String, ◌≡◌, ◌≢◌, refl, ◌⊎◌, inl, inr, Bool, true, false, Option, none, some, List, ◌==◌,
  eq_iff, arith, find_first, find_first-some, In,
}
use gradconnect_api.Ratelimit.{peek}
use gradconnect_api.Validator.{valid, new}
use gradconnect_api.Store.{Err, record_not_found, Result, ok, Env, Db, World, Exec}
use gradconnect_api.Store.Rows.{User, AppUser, Session}
use gradconnect_api.Store.Transactions.{query-ok, query-read}
use gradconnect_api.Data.Users
use gradconnect_api.Data.Users.{scan_user}
use gradconnect_api.Data.Users.Passwords.{password_matches}
use gradconnect_api.Data.Users.Validation.{LoginUserInput, validate_login_user_input}
use gradconnect_api.App.Http.{
  Request, Response, Handler, Decoded, decoded, read_json-cases, attempt, attempt-cases,
  on_result-cases, server_error,
}
use gradconnect_api.App.Auth.Steps.{
  minute, when_valid-cases, when_allowed, when_allowed-cases, count_failure, forget,
  signed_in_response,
}
use gradconnect_api.App.Auth.Login.{
  login_key, lookup_failed, answer_match, check_password, login_user_handler,
}
use gradconnect_api.App.Auth.Login.SignIn.{IsSignedIn, sign_in-cases}

-- The first row of an address, which a sign-in reads.
abbrev pub IsAccountOf : User → String → Db → Type 0
IsAccountOf user email db =
    (row : AppUser) × In row db.app_user × (row.user ≡ user) × (row.email ≡ email)

account_found :
    (email : String) (found : Option AppUser) (rows : List AppUser) (user : User)
    → find_first (λ r. r.email == email) rows ≡ found
    → scan_user found ≡ ok user
    → (row : AppUser) × In row rows × (row.user ≡ user) × (row.email ≡ email)
account_found email none rows user e h = cc
account_found email (some row) rows user e h =
    let (there, same) = find_first-some (λ r. r.email == email) rows {a = row} e in
    (row, there, cc, (eq_iff row.email email).0 same)

module _ ⦃env : Env⦄ where
  -- The outcome of a sign-in.
  abbrev pub LoginOutcome : Decoded LoginUserInput → World → Response × World → Type 0
  LoginOutcome body w out =
      ((input : LoginUserInput) × (user : User) × (session : Session) × (body ≡ decoded input true)
        × (valid (validate_login_user_input input new) ≡ true)
        × ((peek (login_key input) 5 (15 * minute) w.now w.limiter).0 ≡ true)
        × IsAccountOf user input.email w.db
        × (password_matches user.password_hash input.password ≡ ok true)
        × (out.0 ≡ signed_in_response 200 user session)
        × IsSignedIn user session w.db out.1.db)
      ⊎ ((out.0.status ≢ 200) × (out.1.db ≡ w.db))

  lookup_failed-cases :
      (e : Err) (w : World) → ((lookup_failed e w).0.status ≢ 200) × ((lookup_failed e w).1 ≡ w)
  lookup_failed-cases record_not_found w = ((λ s. omega arith), refl)
  lookup_failed-cases _ w = ((λ s. omega arith), refl)

  -- What the right password does, and the wrong one does not.
  abbrev Checked : LoginUserInput → User → Db → Response × World → Type 0
  Checked input user before out =
      ((session : Session) × (password_matches user.password_hash input.password ≡ ok true)
        × (out.0 ≡ signed_in_response 200 user session)
        × IsSignedIn user session before out.1.db)
      ⊎ ((out.0.status ≢ 200) × (out.1.db ≡ before))

  answer_match-cases :
      (req : Request) (input : LoginUserInput) (user : User) (w : World) (known : Bool)
      → password_matches user.password_hash input.password ≡ ok known
      → Checked input user w.db (answer_match req input user known w)
  unfolding count_failure forget
  answer_match-cases req input user w false h = inr ((λ s. omega arith), refl)
  answer_match-cases req input user w true h =
      elim (sign_in-cases 200 req user (forget (login_key input) w)) [
        | inl (session, same, signed) ↦ inl (session, h, same, signed)
        | inr (status, same) ↦ inr ((λ s. omega (arith, status)), same)
      ]

  check_password-cases :
      (req : Request) (input : LoginUserInput) (user : User) (w : World)
      → Checked input user w.db (check_password req input user w)
  unfolding check_password
  check_password-cases req input user w =
      let r : Result Bool = password_matches user.password_hash input.password in
      on_result-cases (Checked input user w.db) r r server_error (answer_match req input user) w
        refl (λ e h. inr ((λ s. omega arith), refl)) (answer_match-cases req input user w)

  pub lookup_unmoved :
      (email : String) (w : World) → (Users.get_by_email_including_deleted email w).1.db ≡ w.db
  unfolding Users.get_by_email_including_deleted Users.get_by_email_including_deleted_sql
  lookup_unmoved email w = query-read (Users.get_by_email_including_deleted_sql email) w refl

  pub lookup_found :
      (email : String) (w : World) (user : User)
      → (Users.get_by_email_including_deleted email w).0 ≡ ok user
      → IsAccountOf user email w.db
  unfolding Users.get_by_email_including_deleted Users.get_by_email_including_deleted_sql
  lookup_found email w user h =
      let (read, _) = query-ok (Users.get_by_email_including_deleted_sql email) w h in
      account_found email (find_first (λ r. r.email == email) w.db.app_user) w.db.app_user user refl
        read

  -- A sign-in is answered with a 200 only for an acceptable input whose address is not locked, and
  -- whose password is that of the account of the address. Then the answer has the cookie of the one
  -- session that has been added, a deleted account is open again, and no other row of a user, session,
  -- token or permission has changed. Any other answer leaves all tables unchanged.
  pub login_user_handler-LoginOutcome :
      (req : Request) (body : Decoded LoginUserInput) (w : World)
      → LoginOutcome body w (login_user_handler req body w)
  unfolding login_user_handler
  login_user_handler-LoginOutcome req body w =
      let P : Response × World → Type 0 = LoginOutcome body w in
      read_json-cases P body _ w (λ e. inr ((λ s. omega arith), refl))
        λ input read.
          let lookup : Exec User = Users.get_by_email_including_deleted input.email in
          let check : Handler = attempt lookup lookup_failed (check_password req input) in
          when_valid-cases P (validate_login_user_input input new)
            (when_allowed (login_key input) 5 (15 * minute) check) w
            (inr ((λ s. omega arith), refl))
            λ accepted.
              when_allowed-cases P (login_key input) 5 (15 * minute) check w
                (inr ((λ s. omega arith), refl))
                λ allowed.
                  attempt-cases P lookup lookup_failed (check_password req input) w
                    (λ e h.
                      let (other, same) = lookup_failed-cases e (lookup w).1 in
                      inr (other, rw same (lookup_unmoved input.email w)))
                    λ user h.
                      let checked : Checked input user w.db
                          (check_password req input user (lookup w).1) =
                        rw (lookup_unmoved input.email w) at
                          (check_password-cases req input user (lookup w).1) in
                      elim checked [
                        | inl (session, known, same, signed) ↦ inl (
                          input,
                          user,
                          session,
                          read,
                          accepted,
                          allowed,
                          lookup_found input.email w user h,
                          known,
                          same,
                          signed,
                        )
                        | inr left ↦ inr left
                      ]
