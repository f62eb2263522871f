-- ===== src/Data/Integrity/Links.antt =====
-- Every session, token and permission belongs to a user of the table, after every statement.
use gradconnect_api.Common.{
  ℕ, String, ◌≡◌, refl, sym, subst, inl, inr, Bool, true, false, not, ◌&&◌, Option, none, some,
  List, [], ◌∷◌, ◌++◌, ◌==◌, any, any-eq-true, any_intro, select, update_where, if◌then◌else◌,
  if-cases, In, In-select, In-select_intro, In-append, In-append_left, In-update_where_intro,
  Bool-cases,
}
use gradconnect_api.Store.{Db, Result}
use gradconnect_api.Store.Rows.{User, AppUser, Session, TokenRow, Permission}
use gradconnect_api.Data.Users.{delete_users, set_user, bumped, save, same_version, edited}

-- The user of a row is in the table.
abbrev pub HasUser : List AppUser → String → Type 0
HasUser users id = any (λ r. r.id == id) users ≡ true

abbrev pub IsLinked : Db → Type 0
IsLinked db =
    ((s : Session) → In s db.session → HasUser db.app_user s.user_id)
    × ((t : TokenRow) → In t db.email_verification_token → HasUser db.app_user t.user_id)
    × ((t : TokenRow) → In t db.password_reset_token → HasUser db.app_user t.user_id)
    × ((p : Permission) → In p db.user_permission → HasUser db.app_user p.user_id)

-- Users that are found stay found.
abbrev Keeps : List AppUser → List AppUser → Type 0
Keeps before after = (id : String) → HasUser before id → HasUser after id

pub append-Keeps : (users more : List AppUser) → Keeps users (users ++ more)
append-Keeps users more id h =
    let (r, there, same) = any-eq-true (λ r. r.id == id) users h in
    any_intro (λ r. r.id == id) (users ++ more) r (In-append_left r users more there) same

pub update-Keeps :
    (p : AppUser → Bool) (f : AppUser → AppUser) (users : List AppUser)
    → ((r : AppUser) → (f r).id ≡ r.id)
    → Keeps users (update_where p f users)
update-Keeps p f users kept id h =
    let (r, there, same) = any-eq-true (λ r. r.id == id) users h in
    any_intro (λ r. r.id == id) (update_where p f users) (if p r then f r else r)
      (In-update_where_intro p f users r there)
      (if-cases (λ (x : AppUser). (x.id == id) ≡ true) (p r) (f r) r (λ _. rw (kept r) same)
        (λ _. same))

-- A row that is left, of a user who is not deleted, still has its user.
survivor :
    (p : AppUser → Bool) (users : List AppUser) (id : String)
    → not (any (λ r. p r && r.id == id) users) ≡ true
    → HasUser users id
    → HasUser (select (λ r. not (p r)) users) id
survivor p users id spared h =
    let (r, there, same) = any-eq-true (λ r. r.id == id) users h in
    let alive : p r ≡ false = elim (Bool-cases (p r)) [
      | inr e ↦ e
      | inl e ↦
          let gone : any (λ r. p r && r.id == id) users ≡ true =
            any_intro (λ r. p r && r.id == id) users r there (rw (e, same) refl) in
          absurd (cc (gone, spared))
    ] in
    any_intro (λ r. r.id == id) (select (λ r. not (p r)) users) r
      (In-select_intro (λ r. not (p r)) users r there (rw alive refl)) same

pub delete_users-IsLinked :
    (p : AppUser → Bool) (db : Db) → IsLinked db → IsLinked (delete_users p db)
unfolding delete_users
delete_users-IsLinked p db (s, v, t, q) =
    let kept : String → Bool = λ id. not (any (λ r. p r && r.id == id) db.app_user) in
    (
      λ x i.
          let (there, ok) = In-select (λ r. kept r.user_id) db.session x i in
          survivor p db.app_user x.user_id ok (s x there),
      λ x i.
          let (there, ok) = In-select (λ r. kept r.user_id) db.email_verification_token x i in
          survivor p db.app_user x.user_id ok (v x there),
      λ x i.
          let (there, ok) = In-select (λ r. kept r.user_id) db.password_reset_token x i in
          survivor p db.app_user x.user_id ok (t x there),
      λ x i.
          let (there, ok) = In-select (λ r. kept r.user_id) db.user_permission x i in
          survivor p db.app_user x.user_id ok (q x there),
    )

pub users-IsLinked :
    (db : Db) (users : List AppUser)
    → Keeps db.app_user users
    → IsLinked db
    → IsLinked (record db { app_user = users })
users-IsLinked db users keeps (s, v, t, q) = (
  λ x i. keeps x.user_id (s x i),
  λ x i. keeps x.user_id (v x i),
  λ x i. keeps x.user_id (t x i),
  λ x i. keeps x.user_id (q x i),
)

pub set_user-IsLinked :
    (now : ℕ) (p : AppUser → Bool) (f : AppUser → AppUser) (db : Db)
    → ((r : AppUser) → (f r).id ≡ r.id)
    → IsLinked db
    → IsLinked (set_user now p f db)
unfolding set_user bumped
set_user-IsLinked now p f db kept h =
    users-IsLinked db (update_where p (λ r. bumped now (f r)) db.app_user)
      (update-Keeps p (λ r. bumped now (f r)) db.app_user kept) h

pub sessions-IsLinked :
    (db : Db) (p : Session → Bool)
    → IsLinked db
    → IsLinked (record db { session = select p db.session })
sessions-IsLinked db p (s, v, t, q) = ((λ x i. s x (In-select p db.session x i).0), v, t, q)

-- One more row of a user of the table.
pub added :
    {A : Type 0} (owner : A → String) (users : List AppUser) (rows : List A) (row : A)
    → HasUser users (owner row)
    → ((x : A) → In x rows → HasUser users (owner x))
    → (x : A) → In x (rows ++ row ∷ [])
    → HasUser users (owner x)
added owner users rows row fk h x i = elim (In-append x rows (row ∷ []) i) [
  | inl old ↦ h x old
  | inr here ↦ elim here [
    | inl same ↦ subst (λ y. HasUser users (owner y)) (sym same) fk
    | inr nowhere ↦ absurd nowhere
  ]
]

pub save-IsLinked :
    (user : User) (now : ℕ) (o : Option AppUser) (db : Db)
    → IsLinked db
    → IsLinked (save user now o db).1
save-IsLinked user now none db h = h
save-IsLinked user now (some old) db h =
    if-cases (λ (out : Result User × Db). IsLinked out.1) _ _ _
      (λ _. set_user-IsLinked now (same_version user) (edited user) db (λ r. refl) h) (λ _. h)
