-- ===== src/Data/Permissions.antt =====
-- internal/data/permissions.go: the methods of `PermissionModel`.
pub mod Laws
use gradconnect_api.Common.{
  ℕ, String, Bool, true, false, not, ◌&&◌, Option, List, [], ◌∷◌, ◌++◌, ◌==◌, map, select, any,
  contains, if◌then◌else◌,
}
use gradconnect_api.Store.{failure, Result, ok, err, Env, Db, Sql, Exec, query}
use gradconnect_api.Store.Rows.{AppUser, Permission}

-- `Include`
unfoldable pub include : List String → String → Bool
unfolding contains
include permissions code = contains permissions code

-- `SELECT DISTINCT`
unfoldable pub distinct : List String → List String
unfolding contains
distinct [] = []
distinct (x ∷ xs) = let rest = distinct xs in if contains rest x then rest else x ∷ rest

unfoldable pub get_all_for_user_sql : String → Sql (List String)
unfolding distinct select
get_all_for_user_sql user_id now n db = (
  ok (distinct (map (λ p. p.permission) (select (λ p. p.user_id == user_id) db.user_permission))),
  db,
)

-- `ON CONFLICT DO NOTHING`
unfoldable pub grant : String → String → List Permission → List Permission
unfolding any
grant user_id code rows =
    if any (λ p. p.user_id == user_id && p.permission == code) rows
    then rows
    else rows ++ record { user_id = user_id; permission = code } ∷ []

unfoldable pub grant_all : String → List String → List Permission → List Permission
unfolding grant
grant_all user_id [] rows = rows
grant_all user_id (code ∷ codes) rows = grant_all user_id codes (grant user_id code rows)

unfoldable pub add_for_user_sql : String → List String → Sql (Unit {0})
unfolding grant_all any
add_for_user_sql user_id [] now n db = (ok tt, db)
add_for_user_sql user_id codes now n db =
    if any (λ r. r.id == user_id) db.app_user
    then (ok tt, record db { user_permission = grant_all user_id codes db.user_permission })
    else (err failure, db)

unfoldable pub remove_for_user_sql : String → List String → Sql (Unit {0})
unfolding select contains
remove_for_user_sql user_id codes now n db = (
  ok tt,
  record db {
    user_permission =
        select (λ p. not (p.user_id == user_id && contains codes p.permission)) db.user_permission;
  },
)

module _ ⦃env : Env⦄ where
  unfoldable pub get_all_for_user : String → Exec (List String)
  unfolding query get_all_for_user_sql
  get_all_for_user user_id = query (get_all_for_user_sql user_id)

  unfoldable pub add_for_user : String → List String → Exec (Unit {0})
  unfolding query add_for_user_sql
  add_for_user user_id codes = query (add_for_user_sql user_id codes)

  unfoldable pub remove_for_user : String → List String → Exec (Unit {0})
  unfolding query remove_for_user_sql
  remove_for_user user_id codes = query (remove_for_user_sql user_id codes)
