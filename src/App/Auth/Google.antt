-- ===== src/App/Auth/Google.antt =====
-- internal/app/auth.go: `googleAuthHandler`. The exchange of the code and the check of the ID token
-- are made by Google's libraries, whose answer is a parameter.
pub mod Join
pub mod Laws
use gradconnect_api.Common.{
  ℕ, String, Bool, true, false, not, ◌||◌, Option, none, some, ◌==◌, if◌then◌else◌,
}
use gradconnect_api.Store.{
  Err, record_not_found, duplicate_email, Env, Exec, World, ◌>>=◌, ◌>>◌, pure, in_transaction,
}
use gradconnect_api.Store.Rows.{User, Session}
use gradconnect_api.Data.Users
use gradconnect_api.Data.Users.{zero_user}
use gradconnect_api.Data.Permissions
use gradconnect_api.Data.Sessions
use gradconnect_api.Data.Tasks
use gradconnect_api.App.Http.{
  Request, Response, Handler, respond, error_text, error_response, Decoded, read_json, attempt,
  server_error, server_error_response,
}
use gradconnect_api.App.Auth.Steps.{name_payload, signed_in_response}
use gradconnect_api.App.Auth.Login.{sign_in}
use gradconnect_api.App.Auth.Activation.{review_permissions}

-- The claims that the handler reads; a claim that is missing or of another type is empty or false.
pub record Claims : Type 0 where
  pub email : String
  pub email_verified : Bool
  pub given_name : String
  pub family_name : String

-- The answers to an authorization code.
pub data GoogleAnswer : Type 0 where
  exchange_failed no_id_token invalid_id_token : GoogleAnswer
  claims : Claims → GoogleAnswer

abbrev pub google_user : Claims → User
google_user c = record zero_user {
  email = c.email;
  first_name = c.given_name;
  last_name = c.family_name;
  auth_provider = "google";
  email_verified = true;
}

abbrev pub creation_failed : Err → Handler
creation_failed duplicate_email w = (error_response 409 "user creation conflict, please retry", w)
creation_failed _ w = (server_error_response, w)

module _ ⦃env : Env⦄ where
  -- The callback of the transaction for a new user.
  unfoldable pub create_google_account : Request → User → Exec (User × Session)
  create_google_account req user = do
    created ← Users.insert user
    Permissions.add_for_user created.id review_permissions
    Tasks.insert "email:welcome" (name_payload created)
    session ← Sessions.create created.id req.remote_ip req.user_agent
    pure (created, session)

  unfoldable pub join : Request → Claims → Handler
  unfolding create_google_account
  join req c =
      attempt (in_transaction (create_google_account req (google_user c))) creation_failed
        (λ done w. (signed_in_response 201 done.0 done.1, w))

  -- An address that is not known joins; any other error of the lookup is a 500.
  abbrev pub unknown_user : Request → Claims → Err → Handler
  unknown_user req c record_not_found w = join req c w
  unknown_user req c _ w = (server_error_response, w)

  -- The restoration and the session are those of a sign-in with a password.
  unfoldable pub return_user : Request → User → Handler
  unfolding sign_in
  return_user req user w =
      if not (user.auth_provider == "google")
      then (error_response 409 "this email is registered with a different sign-in method", w)
      else sign_in 200 req user w

  unfoldable pub accept_claims : Request → Claims → Handler
  unfolding join return_user
  accept_claims req c w =
      if c.email == "" || not c.email_verified
      then (error_response 401 "email not verified by google", w)
      else attempt (Users.get_by_email_including_deleted c.email) (unknown_user req c)
          (return_user req) w

  abbrev pub answer_google : Request → GoogleAnswer → Handler
  answer_google req exchange_failed w =
      (error_response 401 "failed to exchange authorization code", w)
  answer_google req no_id_token w = (error_response 401 "no id_token in oauth response", w)
  answer_google req invalid_id_token w = (error_response 401 "invalid id_token", w)
  answer_google req (claims c) w = accept_claims req c w

  -- `GoogleAuthInput` has one field, the code.
  unfoldable pub google_auth_handler :
      (google : String → GoogleAnswer) → Request → Decoded String → Handler
  unfolding read_json accept_claims
  google_auth_handler google req body = read_json body λ input w.
      if input == ""
      then (respond 400 (error_text "authorization code is required"), w)
      else answer_google req (google input) w
