-- ===== src/Data/Integrity.antt =====
-- The foreign keys on app_user (the migrations) under the statements of internal/data: no row outlives
-- its user.
pub mod Links
pub mod Content
pub mod Statements
use gradconnect_api.Common.{ℕ, String, List, ◌&&◌, not, ◌==◌}
use gradconnect_api.Store.{Env, Db}
use gradconnect_api.Store.Rows.{User, Payload}
use gradconnect_api.Data.Users
use gradconnect_api.Data.Sessions
use gradconnect_api.Data.Sessions.{delete_where}
use gradconnect_api.Data.Tokens
use gradconnect_api.Data.Tokens.{Scope, Token}
use gradconnect_api.Data.Permissions
use gradconnect_api.Data.Tasks
use gradconnect_api.Data.Integrity.Content.{ContentStatement, execute_content}
use gradconnect_api.Worker.Cron.{delete_expired_sessions_sql}

-- The statements that write; those of the content models and of the worker are apart.
pub data Statement : Type 0 where
  insert_user update_user : User → Statement
  activate_user restore_user : String → Statement
  update_user_password soft_delete_user mark_user_email : String → String → Statement
  purge_users : (grace : ℕ) → Statement
  create_session : (user_id ip_address user_agent : String) → Statement
  delete_session delete_sessions : String → Statement
  delete_other_sessions : (user_id session_id : String) → Statement
  insert_token : Token → Statement
  delete_tokens : Scope → String → Statement
  add_permissions remove_permissions : String → List String → Statement
  insert_task : String → Payload → Statement
  delete_expired_sessions : Statement
  content : ContentStatement → Statement

module _ ⦃env : Env⦄ where
  -- The tables after a statement, at a time and with a number.
  unfoldable pub execute : Statement → ℕ → ℕ → Db → Db
  execute (insert_user user) now n db = (Users.insert_sql user now n db).1
  execute (update_user user) now n db = (Users.update_sql user now n db).1
  execute (activate_user id) now n db = (Users.activate_sql id now n db).1
  execute (restore_user id) now n db = (Users.restore_sql id now n db).1
  execute (update_user_password id hash) now n db = (Users.update_password_sql id hash now n db).1
  execute (soft_delete_user id reason) now n db = (Users.soft_delete_sql id reason now n db).1
  execute (mark_user_email email status) now n db =
      (Users.mark_email_status_sql email status now n db).1
  execute (purge_users grace) now n db = (Users.purge_soft_deleted_sql grace now n db).1
  execute (create_session id ip agent) now n db = (Sessions.create_sql id ip agent now n db).1
  execute (delete_session id) now n db = (Sessions.delete_sql id now n db).1
  execute (delete_sessions id) now n db = (delete_where (λ s. s.user_id == id) now n db).1
  execute (delete_other_sessions id kept) now n db = (Sessions.delete_others_sql id kept now n db).1
  execute (insert_token token) now n db = (Tokens.insert_sql token now n db).1
  execute (delete_tokens scope id) now n db = (Tokens.delete_sql scope id now n db).1
  execute (add_permissions id codes) now n db = (Permissions.add_for_user_sql id codes now n db).1
  execute (remove_permissions id codes) now n db =
      (Permissions.remove_for_user_sql id codes now n db).1
  execute (insert_task job_type payload) now n db = (Tasks.insert_sql job_type payload now n db).1
  execute delete_expired_sessions now n db = (delete_expired_sessions_sql now n db).1
  execute (content statement) now n db = execute_content statement now n db
