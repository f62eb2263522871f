-- ===== src/Data/Permissions/Laws.antt =====
-- The permission query returns exactly the user's rows (internal/data/permissions.go).
use gradconnect_api.Common.{
  ◌++◌, ◌⊎◌, In-append, Bool, ◌&&◌, subst, any, any-eq-true, if-cases, In-append_last,
  In-append_left, String, ◌≡◌, refl, sym, ap, ◌↔◌, inl, inr, true, List, [], ◌∷◌, ◌==◌, eq_iff,
  eq_refl, map, arith, contains, select, In, Bool-cases,
}
use gradconnect_api.Store.{Db}
use gradconnect_api.Store.Rows.{Permission}
use gradconnect_api.Data.Permissions.{grant, grant_all, distinct}

pub contains_sound : (xs : List String) (s : String) → contains xs s ≡ true → In s xs
unfolding contains
contains_sound [] s h = cc
contains_sound (x ∷ xs) s h = elim (Bool-cases (x == s)) [
  | inl e ↦ inl (sym ((eq_iff x s).0 e))
  | inr e ↦ inr (contains_sound xs s (ground arith))
]

pub contains_complete : (xs : List String) (s : String) → In s xs → contains xs s ≡ true
unfolding contains
contains_complete [] s h = absurd h
contains_complete (x ∷ xs) s (inl e) = rw (e, eq_refl x) refl
contains_complete (x ∷ xs) s (inr i) = ground (arith, contains_complete xs s i)

distinct_sound : (xs : List String) (s : String) → In s (distinct xs) → In s xs
unfolding distinct
distinct_sound [] s h = absurd h
distinct_sound (x ∷ xs) s h = elim (Bool-cases (contains (distinct xs) x)) [
  | inl e ↦ inr (distinct_sound xs s (rw e at h))
  | inr e ↦ elim (rw e at h) [ inl same ↦ inl same | inr i ↦ inr (distinct_sound xs s i) ]
]

distinct_complete : (xs : List String) (s : String) → In s xs → In s (distinct xs)
unfolding distinct
distinct_complete [] s h = absurd h
distinct_complete (x ∷ xs) s h = elim (Bool-cases (contains (distinct xs) x)) [
  | inl e ↦ rw e (elim h [
    | inl same ↦ rw same (contains_sound (distinct xs) x e)
    | inr i ↦ distinct_complete xs s i
  ])
  | inr e ↦ rw e (elim h [ inl same ↦ inl same | inr i ↦ inr (distinct_complete xs s i) ])
]

abbrev pub HasPermission : Db → String → String → Type 0
HasPermission db user_id code =
    In (record { user_id = user_id; permission = code }) db.user_permission

map_sound :
    (user_id s : String) (rows : List Permission)
    → In s (map (λ p. p.permission) (select (λ p. p.user_id == user_id) rows))
    → In {A = Permission} (record { user_id = user_id; permission = s }) rows
unfolding select
map_sound user_id s [] h = absurd h
map_sound user_id s (r ∷ rows) h = elim (Bool-cases (r.user_id == user_id)) [
  | inl e ↦ elim (rw e at h) [
    | inl same ↦ inl (cc ((eq_iff r.user_id user_id).0 e))
    | inr i ↦ inr (map_sound user_id s rows i)
  ]
  | inr e ↦ inr (map_sound user_id s rows (rw e at h))
]

map_complete :
    (user_id s : String) (rows : List Permission)
    → In {A = Permission} (record { user_id = user_id; permission = s }) rows
    → In s (map (λ p. p.permission) (select (λ p. p.user_id == user_id) rows))
unfolding select
map_complete user_id s [] h = absurd h
map_complete user_id s (r ∷ rows) (inl e) =
    let own : r.user_id ≡ user_id = sym (ap (λ p. p.user_id) e) in
    rw ((eq_iff r.user_id user_id).1 own) (inl (ap (λ p. p.permission) e))
map_complete user_id s (r ∷ rows) (inr i) = elim (Bool-cases (r.user_id == user_id)) [
  | inl e ↦ rw e (inr (map_complete user_id s rows i))
  | inr e ↦ rw e (map_complete user_id s rows i)
]

abbrev pub codes_of : String → Db → List String
codes_of user_id db =
    distinct (map (λ p. p.permission) (select (λ p. p.user_id == user_id) db.user_permission))

-- A code is among those that the query returns exactly when the table grants it to the user.
pub codes_of_iff :
    (user_id code : String) (db : Db)
    → (contains (codes_of user_id db) code ≡ true) ↔ HasPermission db user_id code
codes_of_iff user_id code db = (
  λ h. map_sound user_id code db.user_permission (distinct_sound _ _ (contains_sound _ _ h)),
  λ h.
      contains_complete _ _
        (distinct_complete _ _ (map_complete user_id code db.user_permission h)),
)

same_row :
    (r : Permission) (user_id code : String)
    → (r.user_id == user_id && r.permission == code) ≡ true
    → r ≡ record { user_id = user_id; permission = code }
same_row r user_id code h =
    let mine : r.user_id ≡ user_id = ground (arith, eq_iff r.user_id user_id) in
    let this : r.permission ≡ code = ground (arith, eq_iff r.permission code) in cc (mine, this)

grant-gives :
    (user_id code : String) (rows : List Permission)
    → In {A = Permission}
        (record { user_id = user_id; permission = code })
        (grant user_id code rows)
unfolding grant
grant-gives user_id code rows =
    let row : Permission = record { user_id = user_id; permission = code } in
    let p : Permission → Bool = λ p. p.user_id == user_id && p.permission == code in
    elim (Bool-cases (any p rows)) [
      | inr e ↦ rw e (In-append_last row rows)
      | inl e ↦
          let (r, there, holds) = any-eq-true p rows e in
          let same : r ≡ row = same_row r user_id code holds in
          rw e (subst (λ r. In r rows) same there)
    ]

grant-keeps :
    (user_id code : String) (rows : List Permission) (r : Permission)
    → In r rows
    → In r (grant user_id code rows)
unfolding grant
grant-keeps user_id code rows r i =
    if-cases (λ rows'. In r rows') (any (λ p. p.user_id == user_id && p.permission == code) rows)
      rows _ (λ _. i) (λ _. In-append_left r rows _ i)

grant_all-keeps :
    (user_id : String) (codes : List String) (rows : List Permission) (r : Permission)
    → In r rows
    → In r (grant_all user_id codes rows)
unfolding grant_all
grant_all-keeps user_id [] rows r i = i
grant_all-keeps user_id (code ∷ codes) rows r i =
    grant_all-keeps user_id codes (grant user_id code rows) r (grant-keeps user_id code rows r i)

-- Every code that is granted is held.
pub grant_all-gives :
    (user_id : String) (codes : List String) (rows : List Permission) (code : String)
    → In code codes
    → In {A = Permission}
        (record { user_id = user_id; permission = code })
        (grant_all user_id codes rows)
unfolding grant_all
grant_all-gives user_id [] rows code i = absurd i
grant_all-gives user_id (c ∷ codes) rows code (inl e) =
    grant_all-keeps user_id codes (grant user_id c rows)
      (record { user_id = user_id; permission = code }) (rw e (grant-gives user_id c rows))
grant_all-gives user_id (c ∷ codes) rows code (inr i) =
    grant_all-gives user_id codes (grant user_id c rows) code i

-- A grant adds rows of that user only.
pub grant_all-owner :
    (user_id : String) (codes : List String) (rows : List Permission) (r : Permission)
    → In r (grant_all user_id codes rows)
    → In r rows ⊎ (r.user_id ≡ user_id)
unfolding grant_all grant
grant_all-owner user_id [] rows r i = inl i
grant_all-owner user_id (code ∷ codes) rows r i =
    let row : Permission = record { user_id = user_id; permission = code } in
    elim (grant_all-owner user_id codes (grant user_id code rows) r i) [
      | inr mine ↦ inr mine
      | inl old ↦
          if-cases (λ rows'. In r rows' → In r rows ⊎ (r.user_id ≡ user_id))
            (any (λ p. p.user_id == user_id && p.permission == code) rows) rows (rows ++ row ∷ [])
            (λ _ j. inl j)
            (λ _ j. elim (In-append r rows (row ∷ []) j) [
              | inl j ↦ inl j
              | inr here ↦ elim here [
                | inl same ↦ inr (ap (λ p. p.user_id) same)
                | inr nowhere ↦ absurd nowhere
              ]
            ])
            old
    ]
