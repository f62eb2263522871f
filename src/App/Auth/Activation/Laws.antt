-- ===== src/App/Auth/Activation/Laws.antt =====
-- What an activation needs and leaves (internal/app/auth.go, `activateUserHandler`).
use gradconnect_api.Common.{ℕ, String, ◌≡◌, ◌≢◌, ◌⊎◌, true, In}
use gradconnect_api.Validator.{valid, new}
use gradconnect_api.Store.{Env, Db, World}
use gradconnect_api.Store.Rows.{User, TokenRow}
use gradconnect_api.Data.Users
use gradconnect_api.Data.Users.Laws.{OnlyUser, IsVerified}
use gradconnect_api.Data.Permissions
use gradconnect_api.Data.Permissions.Laws.{HasPermission}
use gradconnect_api.Data.Tokens
use gradconnect_api.Data.Tokens.{activation, validate_token_plaintext, token_table}
use gradconnect_api.Data.Tokens.Laws.{IssuedTo}
use gradconnect_api.Data.Tasks
use gradconnect_api.Data.Tasks.{new_task}
use gradconnect_api.App.Http.{Response}
use gradconnect_api.App.Auth.Activation.{redirect_response}

-- The tables after an activation: the user is verified, may submit and edit reviews, and has no
-- verification token left. Every other user is as before, and so are sessions and reset tokens.
pub record IsActivated (user_id : String) (before after : Db) : Type 0 where
  pub users : OnlyUser user_id IsVerified before.app_user after.app_user
  pub submits : HasPermission after user_id "review:submit"
  pub edits : HasPermission after user_id "review:edit"
  pub spent :
      (t : TokenRow)
      → In t after.email_verification_token
      → (t.user_id ≢ user_id) × In t before.email_verification_token
  pub resets : after.password_reset_token ≡ before.password_reset_token
  pub sessions : after.session ≡ before.session

module _ ⦃env : Env⦄ where
  abbrev Activated : String → ℕ → Db → Db → Type 0
  Activated token now before after =
      (user_id : String) × IssuedTo activation (env.sha256_hex token) user_id now before
      × IsActivated user_id before after

  abbrev Unmoved : World → User → World → Type 0
  Unmoved w user after = after.db ≡ w.db

  -- The outcome of an activation.
  abbrev pub Activation : String → World → Response × World → Type 0
  Activation token w out =
      ((valid (validate_token_plaintext token new) ≡ true)
        × (out.0 ≡ redirect_response "success")
        × Activated token w.now w.db out.1.db)
      ⊎ (((out.0 ≡ redirect_response "invalid") ⊎ (out.0 ≡ redirect_response "error"))
          × (out.1.db ≡ w.db))
