-- ===== src/App/Profile/Laws.antt =====
-- What a profile update writes (internal/app/users.go, `updateUserHandler`).
use gradconnect_api.Common.{
  ℕ, suc, ◌≡◌, ◌≢◌, refl, sym, ap, subst, ◌∙◌, ◌⊎◌, inl, inr, Bool, true, false, ◌&&◌, Option, none,
  some, ◌==◌, eqb, eq_iff, arith, if◌then◌else◌, or_keep, or_keep_some, List, find_first,
  find_first-some, In, In-update_where, In-update_where_intro, eq-eq-false, ne_of-eq-false,
}
use gradconnect_api.Validator.{valid, new}
use gradconnect_api.Store.{Err, edit_conflict, ok, err, Env, Db, World}
use gradconnect_api.Store.Rows.{User, AppUser}
use gradconnect_api.Store.Transactions.{query-ok, query-err}
use gradconnect_api.Data.Users
use gradconnect_api.Data.Users.{bumped, set_user, same_version, edited, save, update_sql}
use gradconnect_api.Data.Users.Versions.{save-ok, save-err}
use gradconnect_api.Data.Users.Laws.{OnlyUser}
use gradconnect_api.Data.Users.Validation.{UpdateUserInput, validate_update_user_input}
use gradconnect_api.App.Http.{
  Response, respond, user_data, Decoded, decoded, read_json-cases, attempt-cases, Principal,
  context_user,
}
use gradconnect_api.App.Auth.Steps.{when_valid-cases}
use gradconnect_api.App.Profile.{apply_input, update_failed, save_profile, update_user_handler}

-- What an update never changes.
abbrev pub IsEdited : AppUser → AppUser → Type 0
IsEdited a r =
    (r.id ≡ a.id)
    × (r.email ≡ a.email)
    × (r.password_hash ≡ a.password_hash)
    × (r.auth_provider ≡ a.auth_provider)
    × (r.deleted_at ≡ a.deleted_at)

edited_row :
    (now : ℕ) (user : User) (a r : AppUser) (mine current : Bool)
    → (a.id == user.id) ≡ mine
    → eqb a.version user.version ≡ current
    → r ≡ (if mine && current then bumped now (edited user a) else a)
    → ((a.id ≡ user.id) × IsEdited a r) ⊎ ((a.id ≢ user.id) × (r ≡ a))
unfolding bumped
edited_row now user a r true true m c same =
    inl
      ((eq_iff a.id user.id).0 m, (simp (same), simp (same), simp (same), simp (same), simp (same)))
edited_row now user a r true false m c same =
    inl
      ((eq_iff a.id user.id).0 m, (simp (same), simp (same), simp (same), simp (same), simp (same)))
edited_row now user a r false current m c same = inr (ne_of-eq-false a.id user.id m, same)

set_user-IsEdited :
    (now : ℕ) (user : User) (db : Db)
    → OnlyUser user.id IsEdited db.app_user
        (set_user now (same_version user) (edited user) db).app_user
unfolding set_user
set_user-IsEdited now user db = (
  λ r i.
      let (a, there, same) =
        In-update_where (same_version user) (λ r. bumped now (edited user r)) db.app_user r i in
      (
        a,
        there,
        edited_row now user a r (a.id == user.id) (eqb a.version user.version) refl refl same,
      ),
  λ a i other.
      let e : same_version user a ≡ false =
        ap (λ b. b && eqb a.version user.version) (eq-eq-false a.id user.id other) in
      rw e at (
        In-update_where_intro (same_version user) (λ r. bumped now (edited user r)) db.app_user a
          i),
)

-- The columns of the user are stored in a row that keeps the rest of the row `a`.
abbrev pub StoredAs : User → AppUser → List AppUser → Type 0
StoredAs saved a rows =
    (r : AppUser) × In r rows
    × (r.id ≡ a.id)
    × (r.first_name ≡ saved.first_name)
    × (r.last_name ≡ saved.last_name)
    × (r.email_verified ≡ saved.email_verified)
    × (r.degree_discipline ≡ saved.degree_discipline)
    × (r.graduation_year ≡ saved.graduation_year)
    × (r.target_industries ≡ saved.target_industries)
    × (r.preferred_locations ≡ saved.preferred_locations)
    × (r.preferences ≡ saved.preferences)
    × (r.version ≡ suc a.version)
    × (r.email ≡ a.email)
    × (r.password_hash ≡ a.password_hash)
    × (r.auth_provider ≡ a.auth_provider)
    × (r.deleted_at ≡ a.deleted_at)

set_user-StoredAs :
    (now : ℕ) (user : User) (old : AppUser) (db : Db)
    → In old db.app_user
    → same_version user old ≡ true
    → StoredAs
        (record user { version = suc old.version })
        old
        (set_user now (same_version user) (edited user) db).app_user
unfolding set_user bumped
set_user-StoredAs now user old db there matches = (
  _,
  rw matches at (
      In-update_where_intro (same_version user) (λ r. bumped now (edited user r)) db.app_user old
        there),
  refl,
  refl,
  refl,
  refl,
  refl,
  refl,
  refl,
  refl,
  refl,
  refl,
  refl,
  refl,
  refl,
  refl,
)

-- The user of an answer: the fields that the input gives, and those of the request's user otherwise.
abbrev pub IsApplied : UpdateUserInput → User → User → Type 0
IsApplied input user saved =
    (saved.id ≡ user.id)
    × (saved.email ≡ user.email)
    × (saved.first_name ≡ or_keep input.first_name user.first_name)
    × (saved.last_name ≡ or_keep input.last_name user.last_name)
    × (saved.email_verified ≡ user.email_verified)
    × (saved.degree_discipline ≡ or_keep_some input.degree_discipline user.degree_discipline)
    × (saved.graduation_year ≡ or_keep_some input.graduation_year user.graduation_year)
    × (saved.target_industries ≡ or_keep input.target_industries user.target_industries)
    × (saved.preferred_locations ≡ or_keep input.preferred_locations user.preferred_locations)
    × (saved.preferences ≡ or_keep input.preferences user.preferences)
    × (saved.version ≡ suc user.version)

-- The tables after an update: the row was at the version that the user had when it was read, nobody
-- else's row has changed, and no other table.
pub record IsUpdated (user saved : User) (before after : Db) : Type 0 where
  pub row : AppUser
  pub listed : In row before.app_user
  pub owner : row.id ≡ user.id
  pub read_at : row.version ≡ user.version
  pub shown : saved ≡ record user { version = suc row.version }
  pub stored : StoredAs saved row after.app_user
  pub users : OnlyUser user.id IsEdited before.app_user after.app_user
  pub sessions : after.session ≡ before.session
  pub permissions : after.user_permission ≡ before.user_permission

saved-IsUpdated :
    (user : User) (now : ℕ) (found : Option AppUser) (db : Db) (u : User)
    → find_first (same_version user) db.app_user ≡ found
    → (save user now found db).0 ≡ ok u
    → IsUpdated user u db (save user now found db).1
unfolding set_user
saved-IsUpdated user now none db u e h = cc
saved-IsUpdated user now (some old) db u e h =
    let (there, matches) = find_first-some (same_version user) db.app_user {a = old} e in
    let same : (save user now (some old) db).1 ≡ set_user now (same_version user) (edited user) db =
      save-ok user now (some old) db h in
    subst (λ d. IsUpdated user u db d) (sym same)
      (record {
        row = old;
        listed = there;
        owner =
            let mine : (old.id == user.id) ≡ true = ground arith in (eq_iff old.id user.id).0 mine;
        read_at = ground arith;
        shown = ground arith;
        stored =
            let shown : u ≡ record user { version = suc old.version } = ground arith in
            rw shown (set_user-StoredAs now user old db there matches);
        users = set_user-IsEdited now user db;
        sessions = refl;
        permissions = refl;
      })

module _ ⦃env : Env⦄ where
  -- The outcome of a profile update.
  abbrev pub ProfileUpdate : Principal → Decoded UpdateUserInput → World → Response × World → Type 0
  ProfileUpdate p body w out =
      ((input : UpdateUserInput) × (saved : User) × (body ≡ decoded input true)
        × (valid (validate_update_user_input w.year input new) ≡ true)
        × (out.0 ≡ respond 200 (user_data saved))
        × IsApplied input (context_user p) saved
        × IsUpdated (apply_input input (context_user p)) saved w.db out.1.db)
      ⊎ ((out.0.status ≢ 200) × (out.1.db ≡ w.db))

  shown-IsApplied :
      (input : UpdateUserInput) (user saved : User) {before after : Db}
      → IsUpdated (apply_input input user) saved before after
      → IsApplied input user saved
  shown-IsApplied input user saved u =
      let version : u.row.version ≡ user.version = u.read_at in
      rw (u.shown, version) (refl, refl, refl, refl, refl, refl, refl, refl, refl, refl, refl)

  -- An update that the driver or the statement refused.
  update_refused :
      (user : User) (w : World) {e : Err}
      → (Users.update user w).0 ≡ err e
      → (Users.update user w).1.db ≡ w.db
  unfolding Users.update update_sql
  update_refused user w h = elim (query-err (update_sql user) w h) [
    | inl same ↦ same
    | inr (ran, same) ↦
        same ∙ save-err user w.now (find_first (same_version user) w.db.app_user) w.db ran
  ]

  updated :
      (user saved : User) (w : World)
      → (Users.update user w).0 ≡ ok saved
      → IsUpdated user saved w.db (Users.update user w).1.db
  unfolding Users.update update_sql
  updated user saved w h =
      let (ran, same) = query-ok (update_sql user) w h in
      subst (λ w'. IsUpdated user saved w.db w'.db) (sym same)
        (saved-IsUpdated user w.now (find_first (same_version user) w.db.app_user) w.db saved refl
          ran)

  update_failed-cases :
      (e : Err) (w : World) → ((update_failed e w).0.status ≢ 200) × ((update_failed e w).1 ≡ w)
  update_failed-cases edit_conflict w = ((λ s. omega arith), refl)
  update_failed-cases _ w = ((λ s. omega arith), refl)

  -- A profile update is answered with a 200 only for an acceptable input, and if the row is at the
  -- version that the request read. Then the answer shows the user with the fields of the input and the next
  -- version, a row of the user stores all of these, no row of that user has another address, password,
  -- provider or deletion time, and no other user, no session and no permission has changed. Any other answer leaves all tables unchanged.
  pub update_user_handler-ProfileUpdate :
      (p : Principal) (body : Decoded UpdateUserInput) (w : World)
      → ProfileUpdate p body w (update_user_handler p body w)
  unfolding update_user_handler save_profile
  update_user_handler-ProfileUpdate p body w =
      let P : Response × World → Type 0 = ProfileUpdate p body w in
      read_json-cases P body _ w (λ e. inr ((λ s. omega arith), refl))
        λ input read.
          let user : User = apply_input input (context_user p) in
          when_valid-cases P (validate_update_user_input w.year input new) (save_profile user) w
            (inr ((λ s. omega arith), refl))
            λ accepted.
              attempt-cases P (Users.update user) update_failed
                (λ saved w. (respond 200 (user_data saved), w)) w
                (λ e h.
                  let (other, same) = update_failed-cases e (Users.update user w).1 in
                  inr (other, rw same (update_refused user w h)))
                λ saved h.
                  let after = updated user saved w h in
                  inl (
                    input,
                    saved,
                    read,
                    accepted,
                    refl,
                    shown-IsApplied input (context_user p) saved after,
                    after,
                  )
