-- ===== src/Data/Effects.antt =====
-- What the methods of internal/data have done when they return no error: the value, and the world
-- that they leave.
use gradconnect_api.Common.{
  List, ℕ, ◌+◌, String, ◌≡◌, refl, ap, ◌∙◌, some, Bool, false, not, ◌&&◌, none, [], ◌∷◌, ◌++◌, ◌==◌,
  arith, any, select,
}
use gradconnect_api.Store.{ok, Env, Db, World, tick}
use gradconnect_api.Store.Rows.{User, AppUser, Session, Payload}
use gradconnect_api.Store.Transactions.{Ensures, query-ok}
use gradconnect_api.Data.Ids.{with_uuid-cases}
use gradconnect_api.Data.Users
use gradconnect_api.Data.Sessions
use gradconnect_api.Data.Sessions.{session_lifetime}
use gradconnect_api.Data.Tokens
use gradconnect_api.Data.Tokens.{Token, Scope, token_table, set_token_table}
use gradconnect_api.Data.Permissions
use gradconnect_api.Data.Permissions.{grant_all}
use gradconnect_api.Data.Tasks
use gradconnect_api.Data.Tasks.{new_task}

-- The sessions of a user other than the one with the id.
abbrev pub is_other : String → String → Session → Bool
is_other user_id id s = s.user_id == user_id && not (s.id == id)

module _ ⦃env : Env⦄ where
  -- A row that registration adds.
  abbrev pub fresh_row : User → ℕ → AppUser
  fresh_row user now = record {
    user = record user { updated_at = now; deleted_at = none };
    deletion_reason = none;
    email_status = "active";
    email_status_updated_at = none;
  }

  abbrev pub created_user : User → World → User
  created_user user w = record user { id = env.uuid w.queries; created_at = w.now; version = 1 }

  abbrev pub InsertedUser : User → World → User → World → Type 0
  InsertedUser user w u after =
      (any (λ r. r.email == user.email) w.db.app_user ≡ false)
      × (u ≡ created_user user w)
      × (after ≡ record (tick w) {
        db = record w.db { app_user = w.db.app_user ++ fresh_row (created_user user w) w.now ∷ [] };
      })

  pub insert_user-ok :
      (user : User) (w : World) → Ensures (InsertedUser user w) (Users.insert user w)
  unfolding Users.insert
  insert_user-ok user w u h = ground arith

  abbrev pub fresh_session : String → String → String → World → Session
  fresh_session user_id ip_address user_agent w = record {
    id = env.uuid w.queries;
    user_id = user_id;
    ip_address = ip_address;
    user_agent = user_agent;
    created_at = w.now;
    expires_at = w.now + session_lifetime;
  }

  abbrev pub CreatedSession : String → String → String → World → Session → World → Type 0
  CreatedSession user_id ip_address user_agent w s after =
      (s ≡ fresh_session user_id ip_address user_agent w)
      × (after ≡ record (tick w) { db = record w.db { session = w.db.session ++ s ∷ [] } })

  pub create_session-ok :
      (user_id ip_address user_agent : String) (w : World)
      → Ensures
          (CreatedSession user_id ip_address user_agent w)
          (Sessions.create user_id ip_address user_agent w)
  unfolding Sessions.create
  create_session-ok user_id ip_address user_agent w s h = ground arith

  abbrev pub InsertedTask : String → Payload → World → Unit {0} → World → Type 0
  InsertedTask job_type payload w u after = after ≡ record (tick w) {
    db = record w.db {
      task_queue = w.db.task_queue ++ new_task w.now w.queries job_type payload ∷ [];
    };
  }

  pub insert_task-ok :
      (job_type : String) (payload : Payload) (w : World)
      → Ensures (InsertedTask job_type payload w) (Tasks.insert job_type payload w)
  unfolding Tasks.insert
  insert_task-ok job_type payload w u h = ground arith

  -- The rows of a scope after a new token: the user's earlier ones are gone.
  abbrev pub renewed : Scope → Token → Db → Db
  renewed scope t db =
      set_token_table scope
        (select (λ r. not (r.user_id == t.user_id)) (token_table scope db)
          ++ record { user_id = t.user_id; token_hash = t.hash; expires_at = t.expiry } ∷ [])
        db

  abbrev pub RenewedToken : String → ℕ → Scope → World → Token → World → Type 0
  RenewedToken user_id ttl scope w t after =
      (t.user_id ≡ user_id)
      × (t.hash ≡ env.sha256_hex t.plaintext)
      × (t.expiry ≡ w.now + ttl)
      × (t.scope ≡ scope)
      × (after ≡ record (tick (tick (tick w))) { db = renewed scope t w.db })

  pub new_token-ok :
      (user_id : String) (ttl : ℕ) (scope : Scope) (w : World)
      → Ensures (RenewedToken user_id ttl scope w) (Tokens.new_token user_id ttl scope w)
  unfolding Tokens.new_token
  new_token-ok user_id ttl Tokens.activation w t h = ground arith
  new_token-ok user_id ttl Tokens.password_reset w t h = ground arith
  new_token-ok user_id ttl Tokens.authentication w t h = ground arith

  -- A statement that ran, and answered nothing but that.
  abbrev pub Wrote : (Db → Db) → World → Unit {0} → World → Type 0
  Wrote f w u after = after ≡ record (tick w) { db = f w.db }

  pub update_password-ok :
      (user_id hash : String) (w : World)
      → Ensures
          (Wrote (λ db. (Users.update_password_sql user_id hash w.now w.queries db).1) w)
          (Users.update_password user_id hash w)
  unfolding Users.update_password Users.update_password_sql
  update_password-ok user_id hash w u h = ground arith

  pub soft_delete-ok :
      (user_id reason : String) (w : World)
      → Ensures
          (Wrote (λ db. (Users.soft_delete_sql user_id reason w.now w.queries db).1) w)
          (Users.soft_delete user_id reason w)
  unfolding Users.soft_delete Users.soft_delete_sql
  soft_delete-ok user_id reason w u h = ground arith

  pub restore-ok :
      (user_id : String) (w : World)
      → Ensures
          (Wrote (λ db. (Users.restore_sql user_id w.now w.queries db).1) w)
          (Users.restore user_id w)
  unfolding Users.restore Users.restore_sql
  restore-ok user_id w u h = ground arith

  -- The sessions that a DELETE leaves.
  abbrev pub without_sessions : (Session → Bool) → Db → Db
  without_sessions p db = record db { session = select (λ s. not (p s)) db.session }

  pub delete_sessions-ok :
      (user_id : String) (w : World)
      → Ensures
          (Wrote (without_sessions (λ s. s.user_id == user_id)) w)
          (Sessions.delete_all_for_user user_id w)
  unfolding Sessions.delete_all_for_user
  delete_sessions-ok user_id w u h = ground arith

  -- The id is the uuid that the text stands for.
  abbrev pub WroteOthers : String → String → World → Unit {0} → World → Type 0
  WroteOthers user_id session_id w u after =
      (id : String) × (env.uuid_of session_id ≡ some id)
      × Wrote (without_sessions (is_other user_id id)) w u after

  pub delete_other_sessions-ok :
      (user_id session_id : String) (w : World)
      → Ensures
          (WroteOthers user_id session_id w)
          (Sessions.delete_all_for_user_except user_id session_id w)
  unfolding Sessions.delete_all_for_user_except Sessions.delete_others_sql
  delete_other_sessions-ok user_id session_id w u h =
      let (ran, after) = query-ok (Sessions.delete_others_sql user_id session_id) w h in
      let (id, is, written) =
        with_uuid-cases
          (λ out.
            out.0 ≡ ok u
            → (id : String) × (env.uuid_of session_id ≡ some id)
              × (out.1 ≡ without_sessions (is_other user_id id) w.db))
          session_id _ w.now w.queries w.db (λ e h. absurd (cc h)) (λ id e h. (id, e, refl)) ran in
      (id, is, after ∙ ap (λ db. record (tick w) { db = db }) written)

  pub delete_reset_tokens-ok :
      (user_id : String) (w : World)
      → Ensures
          (Wrote
            (λ db. record db {
              password_reset_token =
                  select (λ t. not (t.user_id == user_id)) db.password_reset_token;
            })
            w)
          (Tokens.delete_all_for_user Tokens.password_reset user_id w)
  unfolding Tokens.delete_all_for_user
  delete_reset_tokens-ok user_id w u h = ground arith

  pub activate-ok :
      (user_id : String) (w : World)
      → Ensures
          (Wrote (λ db. (Users.activate_sql user_id w.now w.queries db).1) w)
          (Users.activate user_id w)
  unfolding Users.activate Users.activate_sql
  activate-ok user_id w u h = ground arith

  pub delete_verification_tokens-ok :
      (user_id : String) (w : World)
      → Ensures
          (Wrote
            (λ db. record db {
              email_verification_token =
                  select (λ t. not (t.user_id == user_id)) db.email_verification_token;
            })
            w)
          (Tokens.delete_all_for_user Tokens.activation user_id w)
  unfolding Tokens.delete_all_for_user
  delete_verification_tokens-ok user_id w u h = ground arith

  -- A grant of at least one code.
  abbrev pub Granted : String → List String → World → Unit {0} → World → Type 0
  Granted user_id codes w =
      Wrote (λ db. record db { user_permission = grant_all user_id codes db.user_permission }) w

  pub add_for_user-ok :
      (user_id code : String) (codes : List String) (w : World)
      → Ensures
          (Granted user_id (code ∷ codes) w)
          (Permissions.add_for_user user_id (code ∷ codes) w)
  unfolding Permissions.add_for_user Permissions.add_for_user_sql
  add_for_user-ok user_id code codes w u h = ground arith
