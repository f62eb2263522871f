-- ===== src/App/Auth/Account.antt =====
-- internal/app/auth.go: `logoutUserHandler` and `deleteAccountHandler`.
pub mod Laws
use gradconnect_api.Common.{
  ℕ, String, Bool, true, false, not, Option, none, some, List, [], ◌∷◌, ◌==◌, if◌then◌else◌,
}
use gradconnect_api.Store.{Err, Result, Env, Exec, World, ◌>>=◌, ◌>>◌, pure, in_transaction}
use gradconnect_api.Store.Rows.{User}
use gradconnect_api.Data.Users
use gradconnect_api.Data.Users.Passwords.{password_matches}
use gradconnect_api.Data.Sessions
use gradconnect_api.Data.Tasks
use gradconnect_api.App.Http.{
  Request, Response, Handler, respond, empty, Decoded, read_json, attempt, on_result, server_error,
  failed_validation_response, invalid_credentials_response, authentication_required_response,
  cleared_cookie, Principal, context_user,
}
use gradconnect_api.App.Auth.Steps.{name_payload}

-- `deleteAccountInput`
pub record DeleteAccountInput : Type 0 where
  pub password : String
  pub confirmation : String
  pub reason : String

module _ ⦃env : Env⦄ where
  -- A 204 that signs the browser out.
  abbrev pub signed_out_response : Response
  signed_out_response = record (respond 204 empty) { set_cookie = some cleared_cookie }

  abbrev pub end_session : Option String → Handler
  end_session none w = (authentication_required_response, w)
  end_session (some value) w =
      attempt (Sessions.delete value) server_error (λ done w. (signed_out_response, w)) w

  unfoldable pub logout_user_handler : Request → Handler
  logout_user_handler req = end_session req.cookie

  -- The callback of the transaction.
  unfoldable pub close_account : User → String → Exec (Unit {0})
  close_account user reason = do
    Users.soft_delete user.id reason
    Sessions.delete_all_for_user user.id
    Tasks.insert "email:account_deleted" (name_payload user)

  unfoldable pub commit_deletion : User → String → Handler
  unfolding close_account
  commit_deletion user reason =
      attempt (in_transaction (close_account user reason)) server_error
        (λ done w. (signed_out_response, w))

  abbrev pub answer_owner : User → DeleteAccountInput → Bool → Handler
  answer_owner user input false w = (invalid_credentials_response, w)
  answer_owner user input true w = commit_deletion user input.reason w

  -- Only an account with a password has one to ask for.
  unfoldable pub confirm_owner : User → DeleteAccountInput → Handler
  unfolding commit_deletion
  confirm_owner user input w =
      if user.auth_provider == "email"
      then if input.password == ""
        then (failed_validation_response (("password", "must be provided") ∷ []), w)
        else on_result (password_matches user.password_hash input.password) server_error
            (answer_owner user input) w
      else commit_deletion user input.reason w

  unfoldable pub delete_account_handler : Principal → Decoded DeleteAccountInput → Handler
  unfolding read_json confirm_owner
  delete_account_handler p body = read_json body λ input w.
      if not (input.confirmation == "DELETE")
      then (failed_validation_response (("confirmation", "type DELETE to confirm") ∷ []), w)
      else confirm_owner (context_user p) input w
