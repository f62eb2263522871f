-- ===== src/Data/Users.antt =====
-- internal/data/users.go: the methods of `UserModel`. The constraints that an INSERT or UPDATE meets
-- are those of the migrations: the lengths of the columns, the unique email, the required hash.
pub mod Passwords
pub mod Validation
pub mod Laws
pub mod Versions
use Prim.Native.String.{count}
use gradconnect_api.Common.{
  ℕ, suc, ◌+◌, String, Bool, true, false, not, ◌&&◌, ◌||◌, Option, none, some, List, [], ◌∷◌, ◌++◌,
  ◌==◌, ltb, leb, eqb, is_some, length, select, find_first, update_where, any, contains,
  if◌then◌else◌, map,
}
use gradconnect_api.Store.{
  Err, record_not_found, edit_conflict, duplicate_email, failure, Result, ok, err, Env, Db, Sql,
  Exec, query,
}
use gradconnect_api.Store.Rows.{User, AppUser}
use gradconnect_api.Store.Content.{Review}

-- `User{}`, the value that a Go literal starts from
abbrev pub zero_user : User
zero_user = record {
  id = "";
  email = "";
  password_hash = none;
  first_name = "";
  last_name = "";
  auth_provider = "";
  email_verified = false;
  degree_discipline = none;
  graduation_year = none;
  target_industries = [];
  preferred_locations = [];
  preferences = "";
  version = 0;
  created_at = 0;
  updated_at = 0;
  deleted_at = none;
}

abbrev pub is_live : AppUser → Bool
is_live r = not (is_some r.deleted_at)

abbrev fits_opt : Option String → Bool
fits_opt none = true
fits_opt (some s) = leb (count s) 255

-- The column types and the CHECK constraint of app_user.
unfoldable pub fits : User → Bool
fits u =
    leb (count u.email) 255
    && leb (count u.first_name) 255
    && leb (count u.last_name) 255
    && fits_opt u.degree_discipline
    && (u.auth_provider == "google" || (u.auth_provider == "email" && is_some u.password_hash))

-- `rows.Scan` of one row, or `pgx.ErrNoRows`
abbrev pub scan_user : Option AppUser → Result User
scan_user none = err record_not_found
scan_user (some r) = ok r.user

module _ ⦃env : Env⦄ where
  unfoldable pub insert_sql : User → Sql User
  unfolding fits any
  insert_sql user now n db =
      if not (fits user)
      then (err failure, db)
      else if any (λ r. r.email == user.email) db.app_user
      then (err duplicate_email, db)
      else let created = record user { id = env.uuid n; created_at = now; version = 1 } in
        (
          ok created,
          record db {
            app_user =
                db.app_user
                ++ record {
                  user = record created { updated_at = now; deleted_at = none };
                  deletion_reason = none;
                  email_status = "active";
                  email_status_updated_at = none;
                }
                  ∷ [];
          },
        )

  -- `Insert`
  unfoldable pub insert : User → Exec User
  unfolding insert_sql query
  insert user = query (insert_sql user)

unfoldable pub get_by_email_sql : String → Sql User
unfolding find_first
get_by_email_sql email now n db =
    (scan_user (find_first (λ r. r.email == email && is_live r) db.app_user), db)

unfoldable pub get_by_id_sql : String → Sql User
unfolding find_first
get_by_id_sql id now n db = (scan_user (find_first (λ r. r.id == id && is_live r) db.app_user), db)

unfoldable pub get_by_email_including_deleted_sql : String → Sql User
unfolding find_first
get_by_email_including_deleted_sql email now n db =
    (scan_user (find_first (λ r. r.email == email) db.app_user), db)

-- What the trigger, and the version that all but one of the file's statements increment, do to a row.
unfoldable pub bumped : ℕ → AppUser → AppUser
bumped now r = record r { user = record r.user { version = suc r.version; updated_at = now } }

-- `UPDATE app_user SET … WHERE p`
unfoldable pub set_user : ℕ → (AppUser → Bool) → (AppUser → AppUser) → Db → Db
unfolding update_where bumped
set_user now p f db = record db { app_user = update_where p (λ r. bumped now (f r)) db.app_user }

-- `WHERE id = $1 AND version = $2`
abbrev pub same_version : User → AppUser → Bool
same_version user r = r.id == user.id && eqb r.version user.version

abbrev pub edited : User → AppUser → AppUser
edited user r = record r {
  user = record r.user {
    first_name = user.first_name;
    last_name = user.last_name;
    email_verified = user.email_verified;
    degree_discipline = user.degree_discipline;
    graduation_year = user.graduation_year;
    target_industries = user.target_industries;
    preferred_locations = user.preferred_locations;
    preferences = user.preferences;
  };
}

abbrev pub save : User → ℕ → Option AppUser → Db → Result User × Db
save user now none db = (err edit_conflict, db)
save user now (some old) db =
    if leb (count user.first_name) 255
      && leb (count user.last_name) 255
      && fits_opt user.degree_discipline
    then (
      ok (record user { version = suc old.version }),
      set_user now (same_version user) (edited user) db,
    )
    else (err failure, db)

unfoldable pub update_sql : User → Sql User
unfolding set_user fits find_first
update_sql user now n db = save user now (find_first (same_version user) db.app_user) db

abbrev pub verified : AppUser → AppUser
verified r = record r { user = record r.user { email_verified = true } }

unfoldable pub activate_sql : String → Sql (Unit {0})
unfolding set_user
activate_sql user_id now n db = (ok tt, set_user now (λ r. r.id == user_id) verified db)

abbrev pub with_password : String → AppUser → AppUser
with_password hash r = record r { user = record r.user { password_hash = some hash } }

unfoldable pub update_password_sql : String → String → Sql (Unit {0})
unfolding set_user
update_password_sql user_id hash now n db =
    (ok tt, set_user now (λ r. r.id == user_id) (with_password hash) db)

-- `NULLIF($1, '')`
abbrev pub nullif_empty : String → Option String
nullif_empty s = if s == "" then none else some s

abbrev pub marked_deleted : ℕ → String → AppUser → AppUser
marked_deleted now reason r = record r {
  user = record r.user { deleted_at = some now };
  deletion_reason = nullif_empty reason;
}

unfoldable pub soft_delete_sql : String → String → Sql (Unit {0})
unfolding set_user
soft_delete_sql user_id reason now n db =
    (ok tt, set_user now (λ r. r.id == user_id && is_live r) (marked_deleted now reason) db)

abbrev pub restored : AppUser → AppUser
restored r = record r { user = record r.user { deleted_at = none }; deletion_reason = none }

unfoldable pub restore_sql : String → Sql (Unit {0})
unfolding set_user
restore_sql user_id now n db = (ok tt, set_user now (λ r. r.id == user_id) restored db)

abbrev pub email_statuses : List String
email_statuses = "active" ∷ "bounced" ∷ "complained" ∷ []

unfoldable pub mark_email_status_sql : String → String → Sql (Unit {0})
unfolding update_where any contains
mark_email_status_sql email status now n db =
    if any (λ r. r.email == email) db.app_user && not (contains email_statuses status)
    then (err failure, db)
    else (
      ok tt,
      record db {
        app_user =
            update_where (λ r. r.email == email)
              (λ r. record r {
                user = record r.user { updated_at = now };
                email_status = status;
                email_status_updated_at = some now;
              })
              db.app_user;
      },
    )

abbrev pub is_due_for_purge : ℕ → ℕ → AppUser → Bool
is_due_for_purge now grace r = elim r.deleted_at [ none ↦ false | some t ↦ ltb (t + grace) now ]

-- `ON DELETE SET NULL`
abbrev pub author_kept : (String → Bool) → Option String → Option String
author_kept kept none = none
author_kept kept (some id) = if kept id then some id else none

-- A DELETE on app_user, with what the foreign keys to it do.
unfoldable pub delete_users : (AppUser → Bool) → Db → Db
unfolding select any
delete_users p db =
    let kept = λ (id : String). not (any (λ r. p r && r.id == id) db.app_user) in
    record db {
      app_user = select (λ r. not (p r)) db.app_user;
      session = select (λ r. kept r.user_id) db.session;
      email_verification_token = select (λ r. kept r.user_id) db.email_verification_token;
      password_reset_token = select (λ r. kept r.user_id) db.password_reset_token;
      user_permission = select (λ r. kept r.user_id) db.user_permission;
      review = map (λ (r : Review). record r { user_id = author_kept kept r.user_id }) db.review;
      application_track = select (λ r. kept r.user_id) db.application_track;
      bookmark = select (λ r. kept r.user_id) db.bookmark;
    }

unfoldable pub purge_soft_deleted_sql : ℕ → Sql ℕ
unfolding delete_users
purge_soft_deleted_sql grace now n db = (
  ok (length (select (is_due_for_purge now grace) db.app_user)),
  delete_users (is_due_for_purge now grace) db,
)

-- The methods: one statement each.
module _ ⦃env : Env⦄ where
  unfoldable pub get_by_email : String → Exec User
  unfolding query get_by_email_sql
  get_by_email email = query (get_by_email_sql email)

  unfoldable pub get_by_id : String → Exec User
  unfolding query get_by_id_sql
  get_by_id id = query (get_by_id_sql id)

  unfoldable pub get_by_email_including_deleted : String → Exec User
  unfolding query get_by_email_including_deleted_sql
  get_by_email_including_deleted email = query (get_by_email_including_deleted_sql email)

  unfoldable pub update : User → Exec User
  unfolding query update_sql
  update user = query (update_sql user)

  unfoldable pub activate : String → Exec (Unit {0})
  unfolding query activate_sql
  activate user_id = query (activate_sql user_id)

  unfoldable pub update_password : String → String → Exec (Unit {0})
  unfolding query update_password_sql
  update_password user_id hash = query (update_password_sql user_id hash)

  unfoldable pub mark_email_status : String → String → Exec (Unit {0})
  unfolding query mark_email_status_sql
  mark_email_status email status = query (mark_email_status_sql email status)

  unfoldable pub soft_delete : String → String → Exec (Unit {0})
  unfolding query soft_delete_sql
  soft_delete user_id reason = query (soft_delete_sql user_id reason)

  unfoldable pub purge_soft_deleted : ℕ → Exec ℕ
  unfolding query purge_soft_deleted_sql
  purge_soft_deleted grace = query (purge_soft_deleted_sql grace)

  unfoldable pub restore : String → Exec (Unit {0})
  unfolding query restore_sql
  restore user_id = query (restore_sql user_id)
