-- ===== src/App/Auth/Activation.antt =====
-- internal/app/auth.go: `activateUserHandler` and `resendVerificationEmailHandler`.
pub mod Laws
use gradconnect_api.Common.{
  ℕ, ◌*◌, String, Bool, true, false, Option, none, some, List, [], ◌∷◌, ◌+++◌, if◌then◌else◌,
}
use gradconnect_api.Validator.{new, valid}
use gradconnect_api.Store.{Err, record_not_found, Env, Exec, ◌>>=◌, ◌>>◌, in_transaction}
use gradconnect_api.Store.Rows.{User}
use gradconnect_api.Data.Users
use gradconnect_api.Data.Permissions
use gradconnect_api.Data.Tokens
use gradconnect_api.Data.Tokens.{activation, validate_token_plaintext}
use gradconnect_api.Data.Tasks
use gradconnect_api.App.Http.{
  Response, Handler, respond, empty, message_text, error_response, attempt, server_error, Principal,
  context_user,
}
use gradconnect_api.App.Middleware.{limit_then}
use gradconnect_api.App.Auth.Steps.{minute, hour, name_payload, verify_payload}

-- What a verified address may do.
abbrev pub review_permissions : List String
review_permissions = "review:submit" ∷ "review:edit" ∷ []

module _ ⦃env : Env⦄ where
  -- `http.Redirect` to a page of the frontend
  abbrev pub redirect_response : String → Response
  redirect_response result = record (respond 302 empty) {
    location = some (env.frontend_url +++ "/verify-email?result=" +++ result);
  }

  -- The callback of the transaction.
  unfoldable pub activate_account : String → Exec (Unit {0})
  activate_account token = do
    user_id ← Tokens.get_user_for_token activation token
    Users.activate user_id
    Permissions.add_for_user user_id review_permissions
    Tokens.delete_all_for_user activation user_id
    user ← Users.get_by_id user_id
    Tasks.insert "email:welcome" (name_payload user)

  abbrev pub activation_failed : Err → Handler
  activation_failed record_not_found w = (redirect_response "invalid", w)
  activation_failed _ w = (redirect_response "error", w)

  unfoldable pub activate_user_handler : String → Handler
  unfolding activate_account valid validate_token_plaintext
  activate_user_handler token w =
      if valid (validate_token_plaintext token new)
      then attempt (in_transaction (activate_account token)) activation_failed
          (λ done w. (redirect_response "success", w)) w
      else (redirect_response "invalid", w)

  -- The callback of the transaction.
  unfoldable pub send_verification : User → Exec (Unit {0})
  send_verification user = do
    token ← Tokens.new_token user.id (24 * hour) activation
    Tasks.insert "email:verify" (verify_payload user token.plaintext)

  unfoldable pub send_again : User → Handler
  unfolding send_verification
  send_again user w =
      if user.email_verified
      then (error_response 409 "email is already verified", w)
      else attempt (in_transaction (send_verification user)) server_error
          (λ done w. (respond 200 (message_text "verification email sent"), w)) w

  unfoldable pub resend_verification_email_handler : Principal → Handler
  unfolding limit_then send_again
  resend_verification_email_handler p =
      let user = context_user p in
      limit_then ("resend-verification:" +++ user.id) 1 (5 * minute) (send_again user)
