-- ===== src/Data/Users/Versions.antt =====
-- Optimistic locking of `Update` (internal/data/users.go).
use gradconnect_api.Common.{
  ℕ, ◌≡◌, refl, sym, ap, subst, false, Option, none, some, arith, if◌then◌else◌, if-cases,
  find_first, find_first_eq_none, In-update_where,
}
use gradconnect_api.Store.{Err, ok, err, edit_conflict, Db}
use gradconnect_api.Store.Rows.{User, AppUser}
use gradconnect_api.Data.Users.{bumped, set_user, update_sql, edited, same_version, save}

pub save-ok :
    (user : User) (now : ℕ) (o : Option AppUser) (db : Db) {u : User}
    → (save user now o db).0 ≡ ok u
    → (save user now o db).1 ≡ set_user now (same_version user) (edited user) db
save-ok user now none db h = cc
save-ok user now (some old) db h = ground arith

pub save-err :
    (user : User) (now : ℕ) (o : Option AppUser) (db : Db) {e : Err}
    → (save user now o db).0 ≡ err e
    → (save user now o db).1 ≡ db
save-err user now none db h = refl
save-err user now (some old) db h = ground arith

saved_version :
    (now : ℕ) (user later : User) (a : AppUser)
    → later.id ≡ user.id
    → later.version ≡ user.version
    → same_version later (if same_version user a then bumped now (edited user a) else a) ≡ false
unfolding bumped
saved_version now user later a i v =
    if-cases (λ r. same_version later r ≡ false) (same_version user a) _ a (λ e. ground arith)
      (λ e. simp (i, v, e))

-- Once an update has been saved, an update that was read at the same version is an edit conflict and
-- changes nothing, whenever it comes and whatever it writes.
pub update_sql-stale :
    (user later : User) (now n now' n' : ℕ) (db : Db) {u : User}
    → (update_sql user now n db).0 ≡ ok u
    → later.id ≡ user.id
    → later.version ≡ user.version
    → update_sql later now' n' (update_sql user now n db).1
      ≡ (err edit_conflict, (update_sql user now n db).1)
unfolding update_sql set_user
update_sql-stale user later now n now' n' db h i v =
    let after : Db = set_user now (same_version user) (edited user) db in
    let same : (update_sql user now n db).1 ≡ after =
      save-ok user now (find_first (same_version user) db.app_user) db h in
    let gone : find_first (same_version later) after.app_user ≡ none =
      find_first_eq_none (same_version later) after.app_user λ r there.
        let (a, _, e) =
          In-update_where (same_version user) (λ r. bumped now (edited user r)) db.app_user r
            there in
        subst (λ r. same_version later r ≡ false) (sym e) (saved_version now user later a i v) in
    subst (λ d. update_sql later now' n' d ≡ (err edit_conflict, d)) (sym same)
      (ap (λ o. save later now' o after) gone)
