-- ===== src/App/Auth/Registration.antt =====
-- internal/app/auth.go: `registerUserHandler`.
pub mod Laws
use gradconnect_api.Common.{ℕ, ◌*◌, String, false, some, none, ◌+++◌}
use gradconnect_api.Validator.{Validator, new, add_error}
use gradconnect_api.Store.{
  Err, record_not_found, edit_conflict, duplicate_email, failure, Env, Exec, World, ◌>>=◌, ◌>>◌,
  pure, in_transaction,
}
use gradconnect_api.Store.Rows.{User, Session}
use gradconnect_api.Data.Users
use gradconnect_api.Data.Users.{zero_user}
use gradconnect_api.Data.Users.Passwords.{hash_password}
use gradconnect_api.Data.Users.Validation.{CreateUserInput, validate_create_user_input}
use gradconnect_api.Data.Sessions
use gradconnect_api.Data.Tokens
use gradconnect_api.Data.Tokens.{activation}
use gradconnect_api.Data.Tasks
use gradconnect_api.App.Http.{
  Request, Response, Handler, Decoded, read_json, attempt, server_error_response, server_error,
  failed_validation_response,
}
use gradconnect_api.App.Auth.Steps.{hour, when_valid, verify_payload, signed_in_response}

abbrev pub new_user : CreateUserInput → String → User
new_user input hash = record zero_user {
  email = input.email;
  password_hash = some hash;
  first_name = input.first_name;
  last_name = input.last_name;
  auth_provider = "email";
  email_verified = false;
  degree_discipline = input.degree_discipline;
  graduation_year = input.graduation_year;
  target_industries = input.target_industries;
  preferred_locations = input.preferred_locations;
  preferences = input.preferences;
}

module _ ⦃env : Env⦄ where
  -- The callback of the transaction.
  unfoldable pub create_account : Request → User → Exec (User × Session)
  create_account req user = do
    created ← Users.insert user
    token ← Tokens.new_token created.id (24 * hour) activation
    Tasks.insert "email:verify" (verify_payload created token.plaintext)
    session ← Sessions.create created.id req.remote_ip req.user_agent
    pure (created, session)

  abbrev pub registration_failed : Validator → Err → Response
  registration_failed v duplicate_email =
      failed_validation_response
        (add_error "email" "a user with this email address already exists" v).errors
  registration_failed v _ = server_error_response

  abbrev pub registered_response : User × Session → Response
  registered_response (user, session) = record (signed_in_response 201 user session) {
    location = some ("/api/v1/users/" +++ user.id);
  }

  unfoldable pub register_account : Request → Validator → CreateUserInput → String → Handler
  unfolding create_account
  register_account req v input hash =
      attempt (in_transaction (create_account req (new_user input hash)))
        (λ e w. (registration_failed v e, w)) (λ done w. (registered_response done, w))

  unfoldable pub register_user_handler : Request → Decoded CreateUserInput → Handler
  unfolding read_json when_valid register_account
  register_user_handler req body = read_json body λ input w.
      let v = validate_create_user_input w.year input new in
      when_valid v
        (attempt (hash_password input.password) server_error (register_account req v input)) w
