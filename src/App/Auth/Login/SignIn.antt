-- ===== src/App/Auth/Login/SignIn.antt =====
-- What the transaction of a sign-in leaves (internal/app/auth.go, `loginUserHandler`).
use gradconnect_api.Common.{
  ℕ, String, ◌≡◌, refl, ◌⊎◌, inl, inr, Option, none, some, List, [], ◌∷◌, ◌++◌,
}
use gradconnect_api.Store.{Env, Db, World, Exec, tick, in_transaction}
use gradconnect_api.Store.Rows.{User, AppUser, Session}
use gradconnect_api.Store.Transactions.{
  in_transaction-err, Ensures, bind-Ensures, in_transaction-Ensures,
}
use gradconnect_api.Data.Users
use gradconnect_api.Data.Users.{scan_user, restore_sql}
use gradconnect_api.Data.Users.Laws.{OnlyUser, IsRestored, restore_sql-OnlyUser}
use gradconnect_api.Data.Sessions
use gradconnect_api.Data.Tasks
use gradconnect_api.Data.Effects.{
  Wrote, restore-ok, insert_task-ok, InsertedTask, create_session-ok, CreatedSession,
}
use gradconnect_api.App.Http.{Request, Response, attempt-cases, server_error}
use gradconnect_api.App.Auth.Steps.{name_payload, signed_in_response}
use gradconnect_api.App.Auth.Login.{restore_account, open_session, sign_in}

-- What the transaction of a sign-in has done to the users: nothing to those of a live account; to
-- those of a deleted one, the restoration.
abbrev pub Reopened : String → Option ℕ → List AppUser → List AppUser → Type 0
Reopened user_id none before after = after ≡ before
Reopened user_id (some _) before after = OnlyUser user_id IsRestored before after

-- One session of the user has been added.
pub record IsSignedIn (user : User) (session : Session) (before after : Db) : Type 0 where
  pub users : Reopened user.id user.deleted_at before.app_user after.app_user
  pub sessions : after.session ≡ before.session ++ session ∷ []
  pub owner : session.user_id ≡ user.id
  pub verifications : after.email_verification_token ≡ before.email_verification_token
  pub resets : after.password_reset_token ≡ before.password_reset_token
  pub permissions : after.user_permission ≡ before.user_permission

module _ ⦃env : Env⦄ where
  -- After the part of the transaction that restores.
  record IsReopened (user_id : String) (deleted_at : Option ℕ) (before after : Db) : Type 0 where
    users : Reopened user_id deleted_at before.app_user after.app_user
    sessions : after.session ≡ before.session
    verifications : after.email_verification_token ≡ before.email_verification_token
    resets : after.password_reset_token ≡ before.password_reset_token
    permissions : after.user_permission ≡ before.user_permission

  account-IsReopened :
      (user : User) (t : ℕ) (w w1 w2 : World)
      → Wrote (λ db. (restore_sql user.id w.now w.queries db).1) w tt w1
      → InsertedTask "email:account_restored" (name_payload user) w1 tt w2
      → IsReopened user.id (some t) w.db w2.db
  unfolding restore_sql Users.set_user
  account-IsReopened user t w w1 w2 e1 e2 = record {
    users =
        let same : w2.db.app_user ≡ (restore_sql user.id w.now w.queries w.db).1.app_user = cc in
        rw same (restore_sql-OnlyUser user.id w.now w.queries w.db);
    sessions = cc;
    verifications = cc;
    resets = cc;
    permissions = cc;
  }

  restore_account-ok :
      (user : User) (deleted_at : Option ℕ) (w : World)
      → Ensures
          (λ _ after. IsReopened user.id deleted_at w.db after.db)
          (restore_account user deleted_at w)
  unfolding restore_account
  restore_account-ok user none w = λ u e. record {
    users = refl;
    sessions = refl;
    verifications = refl;
    resets = refl;
    permissions = refl;
  }
  restore_account-ok user (some t) w =
      bind-Ensures (Wrote (λ db. (restore_sql user.id w.now w.queries db).1) w)
        (λ _ after. IsReopened user.id (some t) w.db after.db) (Users.restore user.id) _ w
        (restore-ok user.id w)
        λ _ w1 h1 u e.
          account-IsReopened user t w w1
            (Tasks.insert "email:account_restored" (name_payload user) w1).1 h1
            (insert_task-ok "email:account_restored" (name_payload user) w1 u e)

  user-IsSignedIn :
      (req : Request) (user : User) (s : Session) (w w1 w2 : World)
      → IsReopened user.id user.deleted_at w.db w1.db
      → CreatedSession user.id req.remote_ip req.user_agent w1 s w2
      → IsSignedIn user s w.db w2.db
  user-IsSignedIn req user s w w1 w2 before (es, e) = record {
    users = let same : w2.db.app_user ≡ w1.db.app_user = cc in rw same before.users;
    sessions = cc (e, before.sessions);
    owner = cc;
    verifications = cc (e, before.verifications);
    resets = cc (e, before.resets);
    permissions = cc (e, before.permissions);
  }

  open_session-ok :
      (req : Request) (user : User) (w : World)
      → Ensures (λ s after. IsSignedIn user s w.db after.db) (open_session req user w)
  unfolding open_session
  open_session-ok req user w =
      bind-Ensures (λ _ after. IsReopened user.id user.deleted_at w.db after.db)
        (λ s after. IsSignedIn user s w.db after.db) (restore_account user user.deleted_at) _ w
        (restore_account-ok user user.deleted_at w)
        λ _ w1 h1 s e.
          user-IsSignedIn req user s w w1
            (Sessions.create user.id req.remote_ip req.user_agent w1).1 h1
            (create_session-ok user.id req.remote_ip req.user_agent w1 s e)

  -- Signed in, or another answer and no table changed.
  abbrev pub SigningIn : ℕ → User → Db → Response × World → Type 0
  SigningIn status user before out =
      ((session : Session) × (out.0 ≡ signed_in_response status user session)
        × IsSignedIn user session before out.1.db)
      ⊎ ((out.0.status ≡ 500) × (out.1.db ≡ before))

  pub sign_in-cases :
      (status : ℕ) (req : Request) (user : User) (w : World)
      → SigningIn status user w.db (sign_in status req user w)
  unfolding sign_in
  sign_in-cases status req user w =
      let body : Exec Session = open_session req user in
      attempt-cases (SigningIn status user w.db) (in_transaction body) server_error
        (λ session w. (signed_in_response status user session, w)) w
        (λ e h. inr (refl, in_transaction-err body w h))
        λ session h. inl (
          session,
          refl,
          in_transaction-Ensures (λ s after. IsSignedIn user s w.db after) body w
              (open_session-ok req user (tick w)) session h,
        )
