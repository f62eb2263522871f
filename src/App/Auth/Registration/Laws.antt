-- ===== src/App/Auth/Registration/Laws.antt =====
-- A registration is all or nothing, and a successful one leaves a whole account (internal/app/auth.go).
use gradconnect_api.Common.{
  String, ◌≡◌, ◌≢◌, ◌⊎◌, true, false, not, none, some, [], ◌∷◌, ◌++◌, ◌==◌, any, select,
}
use gradconnect_api.Validator.{Validator, valid, new}
use gradconnect_api.Store.{Env, Db, World}
use gradconnect_api.Store.Rows.{User, AppUser, Session, TokenRow, Task}
use gradconnect_api.Data.Users
use gradconnect_api.Data.Users.Validation.{CreateUserInput, validate_create_user_input}
use gradconnect_api.Data.Sessions
use gradconnect_api.Data.Tokens
use gradconnect_api.Data.Tasks
use gradconnect_api.App.Http.{Response, Decoded, decoded}
use gradconnect_api.App.Auth.Registration.{registered_response}

-- What a registration adds to the tables: one unverified user of an address that had none, one
-- session of theirs, one verification token that is their only one, and the task that mails it.
pub record IsRegistered (input : CreateUserInput) (before after : Db) (user : User)
    (session : Session) : Type 0 where
  pub hash : String
  pub row : AppUser
  pub unused : any (λ r. r.email == input.email) before.app_user ≡ false
  pub users : after.app_user ≡ before.app_user ++ row ∷ []
  pub same_user : row.id ≡ user.id
  pub email : row.email ≡ input.email
  pub unverified : row.email_verified ≡ false
  pub live : row.deleted_at ≡ none
  pub hashed : row.password_hash ≡ some hash
  pub sessions : after.session ≡ before.session ++ session ∷ []
  pub owner : session.user_id ≡ user.id
  pub token : TokenRow
  pub tokens :
      after.email_verification_token
      ≡ select (λ t. not (t.user_id == user.id)) before.email_verification_token ++ token ∷ []
  pub token_owner : token.user_id ≡ user.id
  pub task : Task
  pub tasks : after.task_queue ≡ before.task_queue ++ task ∷ []
  pub mail : task.job_type ≡ "email:verify"
  pub resets : after.password_reset_token ≡ before.password_reset_token
  pub permissions : after.user_permission ≡ before.user_permission

module _ ⦃env : Env⦄ where
  abbrev Whole : CreateUserInput → Db → User × Session → Db → Type 0
  Whole input before (user, session) after = IsRegistered input before after user session

  abbrev Registered : CreateUserInput → Db → Response × World → Type 0
  Registered input before (r, after) =
      (user : User) × (session : Session) × (r ≡ registered_response (user, session))
      × IsRegistered input before after.db user session

  abbrev Unregistered : Db → Response × World → Type 0
  Unregistered before (r, after) = (r.status ≢ 201) × (after.db ≡ before)

  -- The outcome of a registration: a 201 with the cookie of the new session, and a whole account; or
  -- any other answer, with the tables unchanged.
  abbrev pub Registration : Decoded CreateUserInput → World → Response × World → Type 0
  Registration body w out =
      ((input : CreateUserInput) × (body ≡ decoded input true)
        × (valid (validate_create_user_input w.year input new) ≡ true)
        × Registered input w.db out)
      ⊎ Unregistered w.db out
