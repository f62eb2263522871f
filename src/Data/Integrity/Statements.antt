-- ===== src/Data/Integrity/Statements.antt =====
-- The foreign keys hold after every statement of internal/data.
use gradconnect_api.Common.{
  ℕ, String, refl, sym, subst, inl, inr, not, ◌&&◌, List, [], ◌∷◌, ◌++◌, ◌==◌, arith, any,
  find_first, if-cases, In, In-select, ltb,
}
use gradconnect_api.Store.{Env, Db, Result}
use gradconnect_api.Store.Rows.{User, Session, TokenRow, Permission}
use gradconnect_api.Data.Ids.{with_uuid-cases}
use gradconnect_api.Data.Integrity.Content.{Accounts, execute_content-accounts}
use gradconnect_api.Worker.Cron.{delete_expired_sessions_sql}
use gradconnect_api.Data.Users
use gradconnect_api.Data.Users.{
  set_user, same_version, with_password, marked_deleted, restored, verified, is_live,
  is_due_for_purge,
}
use gradconnect_api.Data.Sessions
use gradconnect_api.Data.Tokens
use gradconnect_api.Data.Tasks
use gradconnect_api.Data.Tokens.{Scope, Token, activation, password_reset, authentication}
use gradconnect_api.Data.Permissions
use gradconnect_api.Data.Permissions.{grant_all}
use gradconnect_api.Data.Permissions.Laws.{grant_all-owner}
use gradconnect_api.Data.Integrity.{
  Statement, insert_user, update_user, activate_user, restore_user, update_user_password,
  soft_delete_user, mark_user_email, purge_users, create_session, delete_session, delete_sessions,
  delete_other_sessions, insert_token, delete_tokens, add_permissions, remove_permissions,
  insert_task, delete_expired_sessions, content, execute,
}
use gradconnect_api.Data.Integrity.Links.{
  IsLinked, HasUser, append-Keeps, update-Keeps, users-IsLinked, set_user-IsLinked,
  sessions-IsLinked, delete_users-IsLinked, save-IsLinked, added,
}

token-IsLinked :
    (token : Token) (now n : ℕ) (db : Db)
    → IsLinked db
    → IsLinked (Tokens.insert_sql token now n db).1
unfolding Tokens.insert_sql Tokens.token_table Tokens.set_token_table
token-IsLinked token now n db (s, v, t, q) =
    if-cases (λ (out : Result (Unit {0}) × Db). IsLinked out.1)
      (any (λ r. r.id == token.user_id) db.app_user) _ _ (λ fk. stored token.scope fk)
      (λ _. (s, v, t, q))
  where
    row : TokenRow
    row = record { user_id = token.user_id; token_hash = token.hash; expires_at = token.expiry }

    stored :
        (scope : Scope)
        → HasUser db.app_user token.user_id
        → IsLinked (Tokens.set_token_table scope (Tokens.token_table scope db ++ row ∷ []) db)
    stored password_reset fk =
        (s, v, added (λ x. x.user_id) db.app_user db.password_reset_token row fk t, q)
    stored activation fk =
        (s, added (λ x. x.user_id) db.app_user db.email_verification_token row fk v, t, q)
    stored authentication fk =
        (s, added (λ x. x.user_id) db.app_user db.email_verification_token row fk v, t, q)

delete_tokens-IsLinked :
    (scope : Scope) (id : String) (now n : ℕ) (db : Db)
    → IsLinked db
    → IsLinked (Tokens.delete_sql scope id now n db).1
unfolding Tokens.delete_sql Tokens.token_table Tokens.set_token_table
delete_tokens-IsLinked password_reset id now n db (s, v, t, q) =
    (s, v, (λ x i. t x (In-select (λ r. not (r.user_id == id)) db.password_reset_token x i).0), q)
delete_tokens-IsLinked activation id now n db (s, v, t, q) = (
  s,
  (λ x i. v x (In-select (λ r. not (r.user_id == id)) db.email_verification_token x i).0),
  t,
  q,
)
delete_tokens-IsLinked authentication id now n db (s, v, t, q) = (
  s,
  (λ x i. v x (In-select (λ r. not (r.user_id == id)) db.email_verification_token x i).0),
  t,
  q,
)

add_permissions-IsLinked :
    (id : String) (codes : List String) (now n : ℕ) (db : Db)
    → IsLinked db
    → IsLinked (Permissions.add_for_user_sql id codes now n db).1
unfolding Permissions.add_for_user_sql
add_permissions-IsLinked id [] now n db h = h
add_permissions-IsLinked id (code ∷ codes) now n db (s, v, t, q) =
    if-cases (λ (out : Result (Unit {0}) × Db). IsLinked out.1) (any (λ r. r.id == id) db.app_user)
      _ _
      (λ fk. (
        s,
        v,
        t,
        λ x i. elim (grant_all-owner id (code ∷ codes) db.user_permission x i) [
          | inl old ↦ q x old
          | inr mine ↦ subst (λ u. HasUser db.app_user u) (sym mine) fk
        ],
      ))
      (λ _. (s, v, t, q))

-- `IsLinked`, of the tables that it is about.
abbrev AreLinked : Accounts → Type 0
AreLinked a =
    ((s : Session) → In s a.1 → HasUser a.0 s.user_id)
    × ((t : TokenRow) → In t a.2 → HasUser a.0 t.user_id)
    × ((t : TokenRow) → In t a.3 → HasUser a.0 t.user_id)
    × ((p : Permission) → In p a.4 → HasUser a.0 p.user_id)

module _ ⦃env : Env⦄ where
  insert_user-IsLinked :
      (user : User) (now n : ℕ) (db : Db)
      → IsLinked db
      → IsLinked (Users.insert_sql user now n db).1
  unfolding Users.insert_sql
  insert_user-IsLinked user now n db h =
      let P : Result User × Db → Type 0 = λ out. IsLinked out.1 in
      if-cases P (not (Users.fits user)) _ _ (λ _. h)
        λ _.
          if-cases P (any (λ r. r.email == user.email) db.app_user) _ _ (λ _. h)
            λ _. users-IsLinked db (db.app_user ++ _) (append-Keeps db.app_user _) h

  create_session-IsLinked :
      (id ip agent : String) (now n : ℕ) (db : Db)
      → IsLinked db
      → IsLinked (Sessions.create_sql id ip agent now n db).1
  unfolding Sessions.create_sql
  create_session-IsLinked id ip agent now n db (s, v, t, q) =
      if-cases (λ (out : Result Session × Db). IsLinked out.1) _ _ _
        (λ good. (added (λ x. x.user_id) db.app_user db.session _ (ground arith) s, v, t, q))
        (λ _. (s, v, t, q))

  -- Whatever statement that writes is executed, of the models of internal/data but that of import jobs, or
  -- of the worker, at whatever time, and whether or not it succeeds: if every session, token and permission
  -- belongs to a user of the table, it does so afterwards.
  pub execute-IsLinked :
      (statement : Statement) (now n : ℕ) (db : Db)
      → IsLinked db
      → IsLinked (execute statement now n db)
  unfolding execute Users.update_sql Users.activate_sql Users.restore_sql Users.update_password_sql
      Users.soft_delete_sql Users.mark_email_status_sql Users.purge_soft_deleted_sql
      Sessions.delete_where Sessions.delete_sql Sessions.delete_others_sql
      delete_expired_sessions_sql Permissions.remove_for_user_sql Tasks.insert_sql
  execute-IsLinked (insert_user user) now n db h = insert_user-IsLinked user now n db h
  execute-IsLinked (update_user user) now n db h =
      save-IsLinked user now (find_first (same_version user) db.app_user) db h
  execute-IsLinked (activate_user id) now n db h =
      set_user-IsLinked now (λ r. r.id == id) verified db (λ r. refl) h
  execute-IsLinked (restore_user id) now n db h =
      set_user-IsLinked now (λ r. r.id == id) restored db (λ r. refl) h
  execute-IsLinked (update_user_password id hash) now n db h =
      set_user-IsLinked now (λ r. r.id == id) (with_password hash) db (λ r. refl) h
  execute-IsLinked (soft_delete_user id reason) now n db h =
      set_user-IsLinked now (λ r. r.id == id && is_live r) (marked_deleted now reason) db
        (λ r. refl) h
  execute-IsLinked (mark_user_email email status) now n db h =
      if-cases (λ (out : Result (Unit {0}) × Db). IsLinked out.1) _ _ _ (λ _. h)
        (λ _. users-IsLinked db _ (update-Keeps _ _ db.app_user (λ r. refl)) h)
  execute-IsLinked (purge_users grace) now n db h =
      delete_users-IsLinked (is_due_for_purge now grace) db h
  execute-IsLinked (create_session id ip agent) now n db h =
      create_session-IsLinked id ip agent now n db h
  execute-IsLinked (delete_session id) now n db h =
      with_uuid-cases (λ out. IsLinked out.1) id _ now n db (λ _. h)
        (λ key _. sessions-IsLinked db (λ s. not (s.id == key)) h)
  execute-IsLinked (delete_sessions id) now n db h =
      sessions-IsLinked db (λ s. not (s.user_id == id)) h
  execute-IsLinked (delete_other_sessions id kept) now n db h =
      with_uuid-cases (λ out. IsLinked out.1) kept _ now n db (λ _. h)
        (λ key _. sessions-IsLinked db (λ s. not (s.user_id == id && not (s.id == key))) h)
  execute-IsLinked (insert_token token) now n db h = token-IsLinked token now n db h
  execute-IsLinked (delete_tokens scope id) now n db h = delete_tokens-IsLinked scope id now n db h
  execute-IsLinked (add_permissions id codes) now n db h =
      add_permissions-IsLinked id codes now n db h
  execute-IsLinked (remove_permissions id codes) now n db (s, v, t, q) =
      (s, v, t, λ x i. q x (In-select _ db.user_permission x i).0)
  execute-IsLinked (insert_task job_type payload) now n db h = h
  execute-IsLinked delete_expired_sessions now n db h =
      sessions-IsLinked db (λ s. not (ltb s.expires_at now)) h
  execute-IsLinked (content statement) now n db h =
      subst AreLinked (sym (execute_content-accounts statement now n db)) h
