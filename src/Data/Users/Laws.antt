-- ===== src/Data/Users/Laws.antt =====
-- What the UPDATE statements of internal/data/users.go do to the rows of app_user.
use gradconnect_api.Common.{
  ℕ, String, ◌≡◌, ◌≢◌, refl, sym, ap, subst, ◌⊎◌, inl, inr, Bool, true, false, ◌&&◌, none, some,
  List, ◌==◌, eq_iff, is_some, if◌then◌else◌, In, In-update_where, In-update_where_intro,
  Bool-cases, not-eq-false, eq-eq-false, ne_of-eq-false,
}
use gradconnect_api.Store.{Db}
use gradconnect_api.Store.Rows.{AppUser}
use gradconnect_api.Data.Users.{
  bumped, set_user, update_password_sql, soft_delete_sql, restore_sql, is_live, with_password,
  restored, marked_deleted, verified, activate_sql,
}

-- The rows of one user have changed as `Change` says, and every other row is as it was.
abbrev pub OnlyUser : String → (AppUser → AppUser → Type 0) → List AppUser → List AppUser → Type 0
OnlyUser user_id Change before after =
    ((r : AppUser)
      → In r after
      → (a : AppUser) × In a before
        × (((a.id ≡ user_id) × Change a r) ⊎ ((a.id ≢ user_id) × (r ≡ a))))
    × ((a : AppUser) → In a before → a.id ≢ user_id → In a after)

set_user-OnlyUser :
    (now : ℕ) (user_id : String) (f : AppUser → AppUser) (Change : AppUser → AppUser → Type 0)
    (db : Db)
    → ((a : AppUser) → Change a (bumped now (f a)))
    → OnlyUser user_id Change db.app_user (set_user now (λ r. r.id == user_id) f db).app_user
unfolding set_user
set_user-OnlyUser now user_id f Change db h = (
  λ r i.
      let (a, there, same) =
        In-update_where (λ r. r.id == user_id) (λ r. bumped now (f r)) db.app_user r i in
      (
        a,
        there,
        elim (Bool-cases (a.id == user_id)) [
          | inl e ↦ inl (
            (eq_iff a.id user_id).0 e,
            let is : r ≡ bumped now (f a) = rw e at same in subst (λ x. Change a x) (sym is) (h a),
          )
          | inr e ↦ inr (ne_of-eq-false a.id user_id e, rw e at same)
        ],
      ),
  λ a i other.
      rw (eq-eq-false a.id user_id other) at
        (In-update_where_intro (λ r. r.id == user_id) (λ r. bumped now (f r)) db.app_user a i),
)

-- A new password, and nothing else that a sign-in reads.
abbrev pub HasNewPassword : String → AppUser → AppUser → Type 0
HasNewPassword hash a r =
    (r.password_hash ≡ some hash)
    × (r.id ≡ a.id)
    × (r.email ≡ a.email)
    × (r.deleted_at ≡ a.deleted_at)
    × (r.auth_provider ≡ a.auth_provider)

pub update_password_sql-OnlyUser :
    (user_id hash : String) (now n : ℕ) (db : Db)
    → OnlyUser user_id
        (HasNewPassword hash)
        db.app_user
        (update_password_sql user_id hash now n db).1.app_user
unfolding update_password_sql bumped
update_password_sql-OnlyUser user_id hash now n db =
    set_user-OnlyUser now user_id (with_password hash) (HasNewPassword hash) db
      (λ a. (refl, refl, refl, refl, refl))

-- The address is verified, and nothing else that a sign-in reads has changed.
abbrev pub IsVerified : AppUser → AppUser → Type 0
IsVerified a r =
    (r.email_verified ≡ true)
    × (r.id ≡ a.id)
    × (r.email ≡ a.email)
    × (r.deleted_at ≡ a.deleted_at)
    × (r.password_hash ≡ a.password_hash)

pub activate_sql-OnlyUser :
    (user_id : String) (now n : ℕ) (db : Db)
    → OnlyUser user_id IsVerified db.app_user (activate_sql user_id now n db).1.app_user
unfolding activate_sql bumped
activate_sql-OnlyUser user_id now n db =
    set_user-OnlyUser now user_id verified IsVerified db (λ a. (refl, refl, refl, refl, refl))

-- The account is open again, and keeps its password.
abbrev pub IsRestored : AppUser → AppUser → Type 0
IsRestored a r =
    (r.deleted_at ≡ none)
    × (r.deletion_reason ≡ none)
    × (r.id ≡ a.id)
    × (r.email ≡ a.email)
    × (r.password_hash ≡ a.password_hash)

pub restore_sql-OnlyUser :
    (user_id : String) (now n : ℕ) (db : Db)
    → OnlyUser user_id IsRestored db.app_user (restore_sql user_id now n db).1.app_user
unfolding restore_sql bumped
restore_sql-OnlyUser user_id now n db =
    set_user-OnlyUser now user_id restored IsRestored db (λ a. (refl, refl, refl, refl, refl))

-- The account is closed. A row that was deleted before is as it was.
abbrev pub IsDeleted : AppUser → AppUser → Type 0
IsDeleted a r = (r.id ≡ a.id) × (r.email ≡ a.email) × (is_some r.deleted_at ≡ true)

row-IsDeleted :
    (now : ℕ) (user_id reason : String) (a r : AppUser) (mine live : Bool)
    → (a.id == user_id) ≡ mine
    → is_live a ≡ live
    → r ≡ (if mine && live then bumped now (marked_deleted now reason a) else a)
    → ((a.id ≡ user_id) × IsDeleted a r) ⊎ ((a.id ≢ user_id) × (r ≡ a))
unfolding bumped
row-IsDeleted now user_id reason a r true true m l same =
    inl ((eq_iff a.id user_id).0 m, (simp (same), simp (same), simp (same)))
row-IsDeleted now user_id reason a r true false m l same = inl (
  (eq_iff a.id user_id).0 m,
  (simp (same), simp (same), let e : r ≡ a = same in rw e (not-eq-false (is_some a.deleted_at) l)),
)
row-IsDeleted now user_id reason a r false live m l same = inr (ne_of-eq-false a.id user_id m, same)

pub soft_delete_sql-OnlyUser :
    (user_id reason : String) (now n : ℕ) (db : Db)
    → OnlyUser user_id IsDeleted db.app_user (soft_delete_sql user_id reason now n db).1.app_user
unfolding soft_delete_sql set_user bumped
soft_delete_sql-OnlyUser user_id reason now n db = (
  λ r i.
      let (a, there, same) =
        In-update_where (λ r. r.id == user_id && is_live r)
          (λ r. bumped now (marked_deleted now reason r)) db.app_user r i in
      (a, there, row-IsDeleted now user_id reason a r (a.id == user_id) (is_live a) refl refl same),
  λ a i other.
      let e : (a.id == user_id && is_live a) ≡ false =
        ap (λ b. b && is_live a) (eq-eq-false a.id user_id other) in
      rw e at (
        In-update_where_intro (λ r. r.id == user_id && is_live r)
          (λ r. bumped now (marked_deleted now reason r)) db.app_user a i),
)
