-- ===== src/Data/Reviews/Approvals.antt =====
-- What each statement on the reviews does to the set of those that are approved (internal/data/reviews.go,
-- and the purge of internal/data/users.go).
use gradconnect_api.Common.{
  ℕ, String, ◌≡◌, ◌≢◌, refl, sym, ap, subst, ◌∙◌, ◌⊎◌, inl, inr, Bool, true, false, ◌&&◌, not,
  Option, none, some, List, [], ◌∷◌, ◌++◌, ◌==◌, eq_iff, arith, if◌then◌else◌, if-cases, In,
  In-append, In-update_where, In-select, In-map, select, update_where, any, contains, Bool-cases,
  eq_refl, any-eq-true, eq-eq-false,
}
use gradconnect_api.Store.{Result, ok, err, Env, Db}
use gradconnect_api.Store.Content.{Review}
use gradconnect_api.Data.Ids.{with_uuid-cases}
use gradconnect_api.Data.Users
use gradconnect_api.Data.Reviews.{
  has_targets, fits_review, fits_edit, insert_sql, update_sql, delete_sql, moderate_sql, new_review,
  edited_review, merge_review, moderated, is_own_review,
}
use gradconnect_api.Data.Reviews.Validation.{
  CreateReviewInput, UpdateReviewInput, permitted_review_list_statuses,
}

-- The ids whose latest decision is an approval, and which have not been edited since.
abbrev pub Approvals : Type 0
Approvals = String → Bool

abbrev pub mark : String → Bool → Approvals → Approvals
mark id answer a j = if id == j then answer else a j

abbrev pub mark_opt : Option String → Bool → Approvals → Approvals
mark_opt none answer a = a
mark_opt (some id) answer a = mark id answer a

module _ ⦃env : Env⦄ where
  abbrev pub decide_on : Bool → String → Approvals → Approvals
  decide_on answer review_id a = mark_opt (env.uuid_of review_id) answer a

  -- An edit that was carried out takes the approval away.
  abbrev pub edit_seen : {A : Type 0} → Result A → String → Approvals → Approvals
  edit_seen (ok _) review_id a = decide_on false review_id a
  edit_seen (err _) review_id a = a

  -- A decision counts once the database accepts its status, whatever is answered to the moderator.
  abbrev pub decision_seen : String → String → Approvals → Approvals
  decision_seen status review_id a =
      if contains permitted_review_list_statuses status
      then decide_on (status == "approved") review_id a
      else a

-- Only approved reviews have the status approved, and no two rows have one id.
abbrev pub IsTracked : List Review → Approvals → Type 0
IsTracked reviews a =
    ((r : Review) → In r reviews → r.status ≡ "approved" → a r.id ≡ true)
    × ((r s : Review) → In r reviews → In s reviews → r.id ≡ s.id → r ≡ s)

add-IsTracked :
    (reviews : List Review) (a : Approvals) (new : Review)
    → new.status ≡ "pending"
    → ((r : Review) → In r reviews → r.id ≢ new.id)
    → IsTracked reviews a
    → IsTracked (reviews ++ new ∷ []) a
add-IsTracked reviews a new waits fresh (listed, unique) = (
  λ r i s. elim (last r i) [
    | inl old ↦ listed r old s
    | inr same ↦
        let p : ◌≡◌ {A = String} "approved" "pending" = sym s ∙ ap (λ x. x.status) same ∙ waits in
        absurd (cc p)
  ],
  λ r s i k same. elim (last r i) [
    | inl old ↦ elim (last s k) [
      | inl old' ↦ unique r s old old' same
      | inr is ↦ absurd (fresh r old (same ∙ ap (λ x. x.id) is))
    ]
    | inr is ↦ elim (last s k) [
      | inl old' ↦ absurd (fresh s old' (sym same ∙ ap (λ x. x.id) is))
      | inr is' ↦ is ∙ sym is'
    ]
  ],
)
  where
    last : (r : Review) → In r (reviews ++ new ∷ []) → In r reviews ⊎ (r ≡ new)
    last r i = elim (In-append r reviews (new ∷ []) i) [
      | inl old ↦ inl old
      | inr here ↦ elim here [ inl same ↦ inr same | inr nowhere ↦ absurd nowhere ]
    ]

-- Rows that are left out, or changed in place with their id and status.
keep-IsTracked :
    (reviews after : List Review) (a : Approvals) (f : Review → Review)
    → ((r : Review) → In r after → (o : Review) × In o reviews × (r ≡ f o))
    → ((r : Review) → ((f r).id ≡ r.id) × ((f r).status ≡ r.status))
    → IsTracked reviews a
    → IsTracked after a
keep-IsTracked reviews after a f from kept (listed, unique) = (
  λ r i s.
      let (o, j, e) = from r i in
      let (same_id, same_status) = kept o in
      rw e (rw same_id (listed o j (sym same_status ∙ ap (λ x. x.status) (sym e) ∙ s))),
  λ r s i k same.
      let (o, j, e) = from r i in
      let (p, l, d) = from s k in
      let one : o ≡ p =
        unique o p j l
          (sym (kept o).0 ∙ ap (λ x. x.id) (sym e) ∙ same ∙ ap (λ x. x.id) d ∙ (kept p).0) in
      e ∙ ap f one ∙ sym d,
)

-- One id is written by a function that gives every row that it writes one status.
write-IsTracked :
    (reviews : List Review) (a : Approvals) (p : Review → Bool) (f : Review → Review)
    (id status : String)
    → ((r : Review) → ((f r).id ≡ r.id) × ((f r).status ≡ status))
    → ((r : Review) → p r ≡ true → r.id ≡ id)
    → ((r : Review) → In r reviews → r.id ≡ id → p r ≡ true)
    → IsTracked reviews a
    → IsTracked (update_where p f reviews) (mark id (status == "approved") a)
write-IsTracked reviews a p f id status wrote only every (listed, unique) = (
  λ r i s.
      let (o, j, e) = In-update_where p f reviews r i in
      elim (Bool-cases (p o)) [
        | inl written ↦
            let is : r ≡ f o = rw written at e in
            let mine : r.id ≡ id = ap (λ x. x.id) is ∙ (wrote o).0 ∙ only o written in
            let approved : status ≡ "approved" =
              sym (wrote o).1 ∙ ap (λ x. x.status) (sym is) ∙ s in
            rw mine (rw (eq_refl id) (rw approved refl))
        | inr left ↦
            let is : r ≡ o = rw left at e in
            let other : (id == r.id) ≡ false =
              eq-eq-false id r.id
                (λ same. absurd (cc (every o j (ap (λ x. x.id) (sym is) ∙ sym same), left))) in
            rw other (rw is (listed o j (ap (λ x. x.status) (sym is) ∙ s)))
      ],
  λ r s i k same.
      let (o, j, e) = In-update_where p f reviews r i in
      let (q, l, d) = In-update_where p f reviews s k in
      let one : o ≡ q = unique o q j l (sym (keeps o e) ∙ same ∙ keeps q d) in
      e ∙ ap (λ o. if p o then f o else o) one ∙ sym d,
)
  where
    keeps : (o : Review) {r : Review} → r ≡ (if p o then f o else o) → r.id ≡ o.id
    keeps o {r} e =
        subst (λ x. x.id ≡ o.id) (sym e)
          (if-cases (λ x. x.id ≡ o.id) (p o) (f o) o (λ _. (wrote o).0) (λ _. refl))

own_id : (id user_id : String) (r : Review) → is_own_review id user_id r ≡ true → r.id ≡ id
own_id id user_id r own = let mine : (r.id == id) ≡ true = ground arith in (eq_iff r.id id).0 mine

-- With distinct ids, a row of the user with an id is the only row with it.
only_own :
    (id user_id : String) (reviews : List Review) (a : Approvals) (r : Review)
    → any (is_own_review id user_id) reviews ≡ true
    → In r reviews
    → r.id ≡ id
    → IsTracked reviews a
    → is_own_review id user_id r ≡ true
only_own id user_id reviews a r there i same h =
    let (o, j, own) = any-eq-true (is_own_review id user_id) reviews there in
    let one : r ≡ o = h.1 r o i j (same ∙ sym (own_id id user_id o own)) in rw one own

module _ ⦃env : Env⦄ where
  pub insert-IsTracked :
      (user_id : String) (input : CreateReviewInput) (now n : ℕ) (db : Db) (a : Approvals)
      → ((r : Review) → In r db.review → r.id ≢ env.uuid n)
      → IsTracked db.review a
      → IsTracked (insert_sql user_id input now n db).1.review a
  unfolding insert_sql
  insert-IsTracked user_id input now n db a fresh h =
      let P : Result Review × Db → Type 0 = λ out. IsTracked out.1.review a in
      with_uuid-cases P input.employer_id _ now n db (λ e. h)
        λ id e. elim (Bool-cases (not (fits_review input))) [
          | inl bad ↦ rw bad h
          | inr good ↦ elim (Bool-cases (has_targets id user_id db)) [
            | inl there ↦
                rw (good, there)
                  (add-IsTracked db.review a (new_review now n user_id id input) refl fresh h)
            | inr gone ↦ rw (good, gone) h
          ]
        ]

  pub update-IsTracked :
      (user_id review_id : String) (input : UpdateReviewInput) (current : Review) (now n : ℕ)
      (db : Db) (a : Approvals)
      → IsTracked db.review a
      → IsTracked
          (update_sql user_id review_id input current now n db).1.review
          (edit_seen (update_sql user_id review_id input current now n db).0 review_id a)
  unfolding update_sql
  update-IsTracked user_id review_id input current now n db a h =
      let P : Result Review × Db → Type 0 =
        λ out. IsTracked out.1.review (edit_seen out.0 review_id a) in
      with_uuid-cases P review_id _ now n db (λ e. h)
        λ id e.
          let merged = merge_review input current in
          elim (Bool-cases (fits_edit input merged && any (is_own_review id user_id) db.review)) [
            | inl there ↦
                rw (there, e)
                  (write-IsTracked db.review a (is_own_review id user_id) (edited_review now merged)
                    id "pending" (λ r. (refl, refl)) (λ r own. own_id id user_id r own)
                    (λ r i same. only_own id user_id db.review a r (ground arith) i same h) h)
            | inr gone ↦ rw gone h
          ]

  pub delete-IsTracked :
      (user_id review_id : String) (now n : ℕ) (db : Db) (a : Approvals)
      → IsTracked db.review a
      → IsTracked (delete_sql user_id review_id now n db).1.review a
  unfolding delete_sql
  delete-IsTracked user_id review_id now n db a h =
      let P : Result (Unit {0}) × Db → Type 0 = λ out. IsTracked out.1.review a in
      with_uuid-cases P review_id _ now n db (λ e. h)
        λ id e. elim (Bool-cases (any (is_own_review id user_id) db.review)) [
          | inl there ↦ rw there (
              keep-IsTracked db.review (select (λ r. not (is_own_review id user_id r)) db.review) a
                (λ r. r)
                (λ r i.
                  (r, (In-select (λ r. not (is_own_review id user_id r)) db.review r i).0, refl))
                (λ r. (refl, refl)) h)
          | inr gone ↦ rw gone h
        ]

  pub moderate-IsTracked :
      (review_id status : String) (now n : ℕ) (db : Db) (a : Approvals)
      → IsTracked db.review a
      → IsTracked
          (moderate_sql review_id status now n db).1.review
          (decision_seen status review_id a)
  unfolding moderate_sql
  moderate-IsTracked review_id status now n db a h =
      let P : Result Review × Db → Type 0 =
        λ out. IsTracked out.1.review (decision_seen status review_id a) in
      with_uuid-cases P review_id _ now n db
        (λ e. rw e (if-cases (IsTracked db.review) _ a a (λ _. h) (λ _. h)))
        λ id e. elim (Bool-cases (contains permitted_review_list_statuses status)) [
          | inl known ↦
              rw (known, e)
                (write-IsTracked db.review a (λ r. r.id == id) (moderated now status) id status
                  (λ r. (refl, refl)) (λ r. (eq_iff r.id id).0) (λ r i. (eq_iff r.id id).1) h)
          | inr unknown ↦ rw unknown h
        ]

  pub purge-IsTracked :
      (grace now n : ℕ) (db : Db) (a : Approvals)
      → IsTracked db.review a
      → IsTracked (Users.purge_soft_deleted_sql grace now n db).1.review a
  unfolding Users.purge_soft_deleted_sql
  purge-IsTracked grace now n db a h =
      keep-IsTracked db.review _ a _ (λ r i. In-map _ db.review r i) (λ r. (refl, refl)) h
