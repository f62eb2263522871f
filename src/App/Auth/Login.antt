-- ===== src/App/Auth/Login.antt =====
-- internal/app/auth.go: `loginUserHandler`.
pub mod SignIn
pub mod Outcome
pub mod Lockout
use gradconnect_api.Common.{
  ℕ, ◌*◌, String, Bool, true, false, Option, none, some, ◌+++◌, is_some, if◌then◌else◌,
}
use gradconnect_api.Ratelimit.{allow, peek, reset}
use gradconnect_api.Validator.{new}
use gradconnect_api.Store.{
  Err, record_not_found, Result, Env, Exec, World, ◌>>=◌, ◌>>◌, pure, in_transaction,
}
use gradconnect_api.Store.Rows.{User, Session}
use gradconnect_api.Data.Users
use gradconnect_api.Data.Users.Passwords.{password_matches}
use gradconnect_api.Data.Users.Validation.{LoginUserInput, validate_login_user_input}
use gradconnect_api.Data.Sessions
use gradconnect_api.Data.Tasks
use gradconnect_api.App.Http.{
  Request, Response, Handler, Decoded, read_json, attempt, on_result, server_error,
  invalid_credentials_response, rate_limit_exceeded_response, error_response, server_error_response,
}
use gradconnect_api.App.Auth.Steps.{
  minute, when_valid, name_payload, signed_in_response, when_allowed, count_failure, forget,
}

abbrev pub login_key : LoginUserInput → String
login_key input = "login-failures:" +++ input.email

abbrev pub lookup_failed : Err → Handler
lookup_failed record_not_found w = (invalid_credentials_response, w)
lookup_failed _ w = (server_error_response, w)

module _ ⦃env : Env⦄ where
  -- What the transaction does for an account that was deleted.
  unfoldable pub restore_account : User → Option ℕ → Exec (Unit {0})
  restore_account user none w = pure tt w
  restore_account user (some _) w =
      (Users.restore user.id >> Tasks.insert "email:account_restored" (name_payload user)) w

  -- The callback of the transaction, which the Google sign-in shares.
  unfoldable pub open_session : Request → User → Exec Session
  unfolding restore_account
  open_session req user =
      restore_account user user.deleted_at >> Sessions.create user.id req.remote_ip req.user_agent

  unfoldable pub sign_in : ℕ → Request → User → Handler
  unfolding open_session
  sign_in status req user =
      attempt (in_transaction (open_session req user)) server_error
        (λ session w. (signed_in_response status user session, w))

  -- A mismatch counts against the address; a match clears its count.
  abbrev pub answer_match : Request → LoginUserInput → User → Bool → Handler
  answer_match req input user false w =
      (invalid_credentials_response, count_failure (login_key input) 5 (15 * minute) w)
  answer_match req input user true w = sign_in 200 req user (forget (login_key input) w)

  unfoldable pub check_password : Request → LoginUserInput → User → Handler
  unfolding sign_in password_matches
  check_password req input user =
      on_result (password_matches user.password_hash input.password) server_error
        (answer_match req input user)

  unfoldable pub login_user_handler : Request → Decoded LoginUserInput → Handler
  unfolding read_json when_valid when_allowed check_password
  login_user_handler req body = read_json body λ input.
      when_valid (validate_login_user_input input new) (
        when_allowed (login_key input) 5 (15 * minute) (
          attempt (Users.get_by_email_including_deleted input.email) lookup_failed
            (check_password req input)))
