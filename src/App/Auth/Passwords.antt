-- ===== src/App/Auth/Passwords.antt =====
-- internal/app/auth.go: `forgotPasswordHandler`, `resetPasswordHandler` and `changePasswordHandler`.
pub mod Laws
pub mod Change
pub mod Forgotten
use gradconnect_api.Common.{
  ℕ, ◌*◌, String, Bool, true, false, not, Option, none, some, ◌==◌, ◌+++◌, if◌then◌else◌,
}
use gradconnect_api.Validator.{new}
use gradconnect_api.Store.{
  Err, record_not_found, Result, Env, Exec, World, ◌>>=◌, ◌>>◌, pure, in_transaction,
}
use gradconnect_api.Store.Rows.{User}
use gradconnect_api.Data.Users
use gradconnect_api.Data.Users.Passwords.{hash_password, password_matches}
use gradconnect_api.Data.Users.Validation.{
  ChangePasswordInput, ResetPasswordInput, validate_email, validate_password_plaintext,
  validate_change_password_input,
}
use gradconnect_api.Data.Sessions
use gradconnect_api.Data.Tokens
use gradconnect_api.Data.Tokens.{password_reset, validate_token_plaintext}
use gradconnect_api.Data.Tasks
use gradconnect_api.App.Http.{
  Request, Response, Handler, respond, message_data, Decoded, read_json, attempt, on_result,
  server_error, server_error_response, error_response, invalid_credentials_response,
  authentication_required_response, Principal, context_user,
}
use gradconnect_api.App.Middleware.{limit_then}
use gradconnect_api.App.Auth.Steps.{
  hour, when_valid, when_allowed, count_failure, forget, name_payload, reset_payload,
}

-- `ForgotPasswordInput` has one field, the address.
abbrev pub forgot_response : Response
forgot_response =
    respond 200 (message_data "If an account with that email exists, a reset link has been sent.")

abbrev pub unknown_address : Err → Handler
unknown_address record_not_found w = (forgot_response, w)
unknown_address _ w = (server_error_response, w)

module _ ⦃env : Env⦄ where
  -- The callback of the transaction.
  unfoldable pub request_reset : User → Exec (Unit {0})
  request_reset user = do
    token ← Tokens.new_token user.id hour password_reset
    Tasks.insert "email:password_reset" (reset_payload user token.plaintext)

  -- Only an account with a password gets a link. The others get the same answer.
  unfoldable pub send_link : User → Handler
  unfolding request_reset
  send_link user w =
      if not (user.auth_provider == "email")
      then (forgot_response, w)
      else attempt (in_transaction (request_reset user)) server_error
          (λ done w. (forgot_response, w)) w

  unfoldable pub forgot_password_handler : Decoded String → Handler
  unfolding read_json when_valid limit_then send_link
  forgot_password_handler body = read_json body λ email. when_valid (validate_email email new) (
      limit_then ("forgot-password:" +++ email) 3 hour
        (attempt (Users.get_by_email email) unknown_address send_link))

  -- The callback of the transaction.
  unfoldable pub replace_password : String → String → Exec (Unit {0})
  replace_password token hash = do
    user_id ← Tokens.get_user_for_token password_reset token
    Users.update_password user_id hash
    Tokens.delete_all_for_user password_reset user_id
    Sessions.delete_all_for_user user_id

  abbrev pub reset_failed : Err → Handler
  reset_failed record_not_found w = (error_response 400 "invalid or expired reset token", w)
  reset_failed _ w = (server_error_response, w)

  abbrev pub reset_response : Response
  reset_response = respond 200 (message_data "Password updated successfully. Please log in.")

  unfoldable pub use_token : String → String → Handler
  unfolding replace_password
  use_token token hash =
      attempt (in_transaction (replace_password token hash)) reset_failed
        (λ done w. (reset_response, w))

  unfoldable pub reset_password_handler : Decoded ResetPasswordInput → Handler
  unfolding read_json when_valid use_token
  reset_password_handler body = read_json body λ input.
      when_valid
        (validate_password_plaintext input.new_password (validate_token_plaintext input.token new))
        (attempt (hash_password input.new_password) server_error (use_token input.token))

  -- The callback of the transaction.
  unfoldable pub change_password : User → String → String → Exec (Unit {0})
  change_password user hash session_id = do
    Users.update_password user.id hash
    Sessions.delete_all_for_user_except user.id session_id
    Tasks.insert "email:password_changed" (name_payload user)

  abbrev pub changed_response : Response
  changed_response =
      respond 200 (message_data "Password updated. You've been signed out of all other devices.")

  unfoldable pub commit_change : User → Option String → String → Handler
  unfolding change_password
  commit_change user none hash w = (authentication_required_response, w)
  commit_change user (some session_id) hash w =
      attempt (in_transaction (change_password user hash session_id)) server_error
        (λ done w. (changed_response, w)) w

  abbrev pub change_key : User → String
  change_key user = "change-password:" +++ user.id

  abbrev pub answer_current : Request → User → ChangePasswordInput → Bool → Handler
  answer_current req user input false w =
      (invalid_credentials_response, count_failure (change_key user) 5 hour w)
  answer_current req user input true w =
      attempt (hash_password input.new_password) server_error (commit_change user req.cookie)
        (forget (change_key user) w)

  unfoldable pub check_current : Request → User → ChangePasswordInput → Handler
  unfolding commit_change
  check_current req user input =
      on_result (password_matches user.password_hash input.current_password) server_error
        (answer_current req user input)

  unfoldable pub change_password_handler :
      Request → Principal → Decoded ChangePasswordInput → Handler
  unfolding read_json when_valid when_allowed check_current
  change_password_handler req p body w =
      let user = context_user p in
      if not (user.auth_provider == "email")
      then (
        error_response 409
            "this account uses Google sign-in; manage your password via your Google account",
        w,
      )
      else read_json body
          (λ input.
            when_valid (validate_change_password_input input new)
              (when_allowed (change_key user) 5 hour (check_current req user input)))
          w
