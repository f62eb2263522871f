-- ===== src/App/Auth/Google/Join.antt =====
-- What a first sign-in with Google adds to the tables (internal/app/auth.go, `googleAuthHandler`).
use gradconnect_api.Common.{◌≡◌, refl, inl, inr, true, false, none, [], ◌∷◌, ◌++◌, ◌==◌, any}
use gradconnect_api.Store.{Env, Db, World}
use gradconnect_api.Store.Rows.{User, AppUser, Session}
use gradconnect_api.Store.Transactions.{Ensures, bind-Ensures, pure-Ensures}
use gradconnect_api.Data.Users
use gradconnect_api.Data.Permissions
use gradconnect_api.Data.Permissions.{grant_all}
use gradconnect_api.Data.Permissions.Laws.{HasPermission, grant_all-gives}
use gradconnect_api.Data.Sessions
use gradconnect_api.Data.Tasks
use gradconnect_api.Data.Effects.{
  fresh_row, InsertedUser, insert_user-ok, Granted, add_for_user-ok, insert_task-ok, InsertedTask,
  CreatedSession, create_session-ok,
}
use gradconnect_api.App.Http.{Request}
use gradconnect_api.App.Auth.Steps.{name_payload}
use gradconnect_api.App.Auth.Activation.{review_permissions}
use gradconnect_api.App.Auth.Google.{Claims, google_user, create_google_account}

-- A first sign-in: a verified user without a password, of an address that had none, who may submit and
-- edit reviews, and one session of theirs.
pub record IsJoined (c : Claims) (before after : Db) (user : User) (session : Session)
    : Type 0 where
  pub row : AppUser
  pub unused : any (λ r. r.email == c.email) before.app_user ≡ false
  pub users : after.app_user ≡ before.app_user ++ row ∷ []
  pub same_user : row.id ≡ user.id
  pub email : row.email ≡ c.email
  pub provider : row.auth_provider ≡ "google"
  pub verified : row.email_verified ≡ true
  pub no_password : row.password_hash ≡ none
  pub submits : HasPermission after user.id "review:submit"
  pub edits : HasPermission after user.id "review:edit"
  pub sessions : after.session ≡ before.session ++ session ∷ []
  pub owner : session.user_id ≡ user.id
  pub verifications : after.email_verification_token ≡ before.email_verification_token
  pub resets : after.password_reset_token ≡ before.password_reset_token

module _ ⦃env : Env⦄ where
  account-IsJoined :
      (req : Request) (c : Claims) (w w1 w2 w3 w4 : World) (u : User) (s : Session)
      → InsertedUser (google_user c) w u w1
      → Granted u.id review_permissions w1 tt w2
      → InsertedTask "email:welcome" (name_payload u) w2 tt w3
      → CreatedSession u.id req.remote_ip req.user_agent w3 s w4
      → IsJoined c w.db w4.db u s
  account-IsJoined req c w w1 w2 w3 w4 u s (unused, eu, e1) e2 e3 (es, e4) =
      let granted : w4.db.user_permission ≡ grant_all u.id review_permissions w.db.user_permission =
        cc in
      record {
        row = fresh_row u w.now;
        unused = unused;
        users = cc;
        same_user = refl;
        email = cc;
        provider = cc;
        verified = cc;
        no_password = cc;
        submits = rw granted (
            grant_all-gives u.id review_permissions w.db.user_permission "review:submit"
              (inl refl));
        edits = rw granted (
            grant_all-gives u.id review_permissions w.db.user_permission "review:edit"
              (inr (inl refl)));
        sessions = cc;
        owner = cc;
        verifications = cc;
        resets = cc;
      }

  abbrev pub Joined : Claims → Db → User × Session → Db → Type 0
  Joined c before (user, session) after = IsJoined c before after user session

  pub create_google_account-ok :
      (req : Request) (c : Claims) (w : World)
      → Ensures
          (λ done after. Joined c w.db done after.db)
          (create_google_account req (google_user c) w)
  unfolding create_google_account
  create_google_account-ok req c w =
      let Q : User × Session → World → Type 0 = λ done after. Joined c w.db done after.db in
      bind-Ensures (InsertedUser (google_user c) w) Q (Users.insert (google_user c)) _ w
        (insert_user-ok (google_user c) w)
        λ u w1 hu.
          bind-Ensures (Granted u.id review_permissions w1) Q
            (Permissions.add_for_user u.id review_permissions) _ w1
            (add_for_user-ok u.id "review:submit" ("review:edit" ∷ []) w1)
            λ _ w2 hg.
              bind-Ensures (InsertedTask "email:welcome" (name_payload u) w2) Q
                (Tasks.insert "email:welcome" (name_payload u)) _ w2
                (insert_task-ok "email:welcome" (name_payload u) w2)
                λ _ w3 hk.
                  bind-Ensures (CreatedSession u.id req.remote_ip req.user_agent w3) Q
                    (Sessions.create u.id req.remote_ip req.user_agent) _ w3
                    (create_session-ok u.id req.remote_ip req.user_agent w3)
                    λ s w4 hs.
                      pure-Ensures Q (u, s) w4
                        (account-IsJoined req c w w1 w2 w3 w4 u s hu hg hk hs)
