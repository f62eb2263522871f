-- ===== src/App/Auth/Passwords/Change.antt =====
-- What a change of the password needs and leaves (internal/app/auth.go, `changePasswordHandler`).
use gradconnect_api.Common.{ℕ, String, ◌≡◌, ◌≢◌, ◌⊎◌, true, Option, some, In}
use gradconnect_api.Ratelimit.{peek}
use gradconnect_api.Validator.{valid, new}
use gradconnect_api.Store.{ok, Env, Db, World}
use gradconnect_api.Store.Rows.{User, Session}
use gradconnect_api.Data.Users
use gradconnect_api.Data.Users.Laws.{OnlyUser, HasNewPassword}
use gradconnect_api.Data.Users.Passwords.{hash_password, password_matches}
use gradconnect_api.Data.Users.Validation.{ChangePasswordInput, validate_change_password_input}
use gradconnect_api.Data.Sessions
use gradconnect_api.Data.Tasks
use gradconnect_api.App.Http.{Request, Response, Decoded, decoded, Principal, context_user}
use gradconnect_api.App.Auth.Steps.{hour}
use gradconnect_api.App.Auth.Passwords.{changed_response, change_key}

-- The tables after a change: the user has the new password, and of their sessions only the current one
-- is left. Every other user and session is as before, and so are tokens and permissions.
pub record IsChanged (user_id hash session_id : String) (before after : Db) : Type 0 where
  pub users : OnlyUser user_id (HasNewPassword hash) before.app_user after.app_user
  pub left :
      (s : Session)
      → In s after.session
      → In s before.session × ((s.user_id ≢ user_id) ⊎ (s.id ≡ session_id))
  pub kept :
      (s : Session)
      → In s before.session
      → (s.user_id ≢ user_id) ⊎ (s.id ≡ session_id)
      → In s after.session
  pub verifications : after.email_verification_token ≡ before.email_verification_token
  pub resets : after.password_reset_token ≡ before.password_reset_token
  pub permissions : after.user_permission ≡ before.user_permission

module _ ⦃env : Env⦄ where
  -- The session of the request has the uuid that its cookie stands for.
  abbrev pub IsChangedFor : User → String → String → Db → Db → Type 0
  IsChangedFor user hash session_id before after =
      (id : String) × (env.uuid_of session_id ≡ some id) × IsChanged user.id hash id before after

  -- Changed, or another answer and no table changed.
  abbrev Changing : Request → User → Option String → Db → Response × World → Type 0
  Changing req user drawn before out =
      ((hash : String) × (session_id : String) × (drawn ≡ some hash)
        × (req.cookie ≡ some session_id)
        × (out.0 ≡ changed_response)
        × IsChangedFor user hash session_id before out.1.db)
      ⊎ ((out.0.status ≢ 200) × (out.1.db ≡ before))

  -- The same, with the password that was asked for.
  abbrev Proven : Request → User → ChangePasswordInput → ℕ → Db → Response × World → Type 0
  Proven req user input n before out =
      ((password_matches user.password_hash input.current_password ≡ ok true)
        × Changing req user (env.hash_password n input.new_password) before out)
      ⊎ ((out.0.status ≢ 200) × (out.1.db ≡ before))

  -- The outcome of a request to change a password.
  abbrev pub PasswordChange :
      Request → Principal → Decoded ChangePasswordInput → World → Response × World → Type 0
  PasswordChange req p body w out =
      ((input : ChangePasswordInput) × (body ≡ decoded input true)
        × ((context_user p).auth_provider ≡ "email")
        × (valid (validate_change_password_input input new) ≡ true)
        × ((peek (change_key (context_user p)) 5 hour w.now w.limiter).0 ≡ true)
        × (password_matches (context_user p).password_hash input.current_password ≡ ok true)
        × Changing req (context_user p) (env.hash_password w.queries input.new_password) w.db out)
      ⊎ ((out.0.status ≢ 200) × (out.1.db ≡ w.db))
