-- ===== src/Data/Sessions.antt =====
-- internal/data/session.go: the methods of `SessionModel`. The lifetime of a session, the foreign key
-- and the lengths of the columns are those of the migrations.
use Prim.Native.String.{count}
use gradconnect_api.Common.{
  ℕ, ◌+◌, ◌*◌, String, Bool, not, ◌&&◌, Option, none, some, [], ◌∷◌, ◌++◌, ◌==◌, ltb, leb, length,
  select, find_first, any, if◌then◌else◌,
}
use gradconnect_api.Store.{record_not_found, failure, Result, ok, err, Env, Db, Sql, Exec, query}
use gradconnect_api.Store.Rows.{Session}
use gradconnect_api.Data.Ids.{with_uuid}

abbrev pub second : ℕ
second = 1000000000

abbrev pub session_lifetime : ℕ
session_lifetime = 7 * 24 * 3600 * second

abbrev has_user : String → Db → Bool
has_user user_id db = any (λ r. r.id == user_id) db.app_user

module _ ⦃env : Env⦄ where
  unfoldable pub create_sql : String → String → String → Sql Session
  unfolding any
  create_sql user_id ip_address user_agent now n db =
      if leb (count ip_address) 45 && leb (count user_agent) 512 && has_user user_id db
      then (let s : Session = record {
        id = env.uuid n;
        user_id = user_id;
        ip_address = ip_address;
        user_agent = user_agent;
        created_at = now;
        expires_at = now + session_lifetime;
      } in
          (ok s, record db { session = db.session ++ s ∷ [] }))
      else (err failure, db)

abbrev pub scan_session : Option Session → Result Session
scan_session none = err record_not_found
scan_session (some s) = ok s

-- A session that a request may use.
abbrev pub is_current : ℕ → String → Session → Bool
is_current now id s = s.id == id && ltb now s.expires_at

-- `DELETE FROM session WHERE p`
unfoldable pub delete_where : (Session → Bool) → Sql ℕ
unfolding select
delete_where p now n db =
    (ok (length (select p db.session)), record db { session = select (λ s. not (p s)) db.session })

-- The number of rows is dropped.
abbrev pub exec_delete : (Session → Bool) → Sql (Unit {0})
exec_delete p now n db = (ok tt, (delete_where p now n db).1)

module _ ⦃env : Env⦄ where
  -- The id is a text from the cookie: it is cast to uuid.
  unfoldable pub get_by_id_sql : String → Sql Session
  unfolding find_first with_uuid
  get_by_id_sql session_id =
      with_uuid session_id
        λ id now n db. (scan_session (find_first (is_current now id) db.session), db)

  unfoldable pub delete_sql : String → Sql (Unit {0})
  unfolding delete_where with_uuid
  delete_sql session_id = with_uuid session_id λ id. exec_delete (λ s. s.id == id)

  unfoldable pub delete_others_sql : String → String → Sql (Unit {0})
  unfolding delete_where with_uuid
  delete_others_sql user_id except_session_id =
      with_uuid except_session_id λ id. exec_delete (λ s. s.user_id == user_id && not (s.id == id))

  unfoldable pub create : String → String → String → Exec Session
  unfolding query create_sql
  create user_id ip_address user_agent = query (create_sql user_id ip_address user_agent)

  unfoldable pub get_by_id : String → Exec Session
  unfolding query get_by_id_sql
  get_by_id id = query (get_by_id_sql id)

  unfoldable pub delete : String → Exec (Unit {0})
  unfolding query delete_sql
  delete id = query (delete_sql id)

  unfoldable pub delete_all_for_user : String → Exec (Unit {0})
  unfolding query delete_where
  delete_all_for_user user_id = query (exec_delete (λ s. s.user_id == user_id))

  unfoldable pub delete_all_for_user_except : String → String → Exec (Unit {0})
  unfolding query delete_others_sql
  delete_all_for_user_except user_id except_session_id =
      query (delete_others_sql user_id except_session_id)
