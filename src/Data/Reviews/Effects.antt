-- ===== src/Data/Reviews/Effects.antt =====
-- What `Update` and `Moderate` of internal/data/reviews.go have done when they return.
use gradconnect_api.Common.{
  ℕ, String, ◌≡◌, refl, sym, ap, subst, ◌∙◌, inl, inr, true, ◌&&◌, Option, none, some, List, ◌==◌,
  eq_iff, arith, if◌then◌else◌, In, Bool-cases, Option-cases, find_first, find_first-some,
  update_where, any,
}
use gradconnect_api.Store.{Err, ok, err, record_not_found, Env, Db, World, Exec, query, raise}
use gradconnect_api.Store.Transactions.{query-ok, query-read, query-err, bind-ok, bind-cases}
use gradconnect_api.Store.Content.{Review}
use gradconnect_api.Data.Ids.{with_uuid-cases}
use gradconnect_api.Data.Reviews
use gradconnect_api.Data.Reviews.{
  get_by_id_sql, update_sql, scan_review, is_author, is_own_review, merge_review, edited_review,
  fits_edit,
}
use gradconnect_api.Data.Reviews.Validation.{UpdateReviewInput}

pub author_is :
    (user_id : String) (o : Option String) → is_author user_id o ≡ true → o ≡ some user_id
author_is user_id none h = cc
author_is user_id (some author) h = ap (λ a. some a) ((eq_iff author user_id).0 h)

module _ ⦃env : Env⦄ where
  -- A review that was found by its id.
  abbrev pub IsFound : String → Db → Review → Type 0
  IsFound review_id db r =
      (id : String) × (env.uuid_of review_id ≡ some id) × In r db.review × (r.id ≡ id)

  scanned :
      (id : String) (reviews : List Review) (r : Review)
      → scan_review (find_first (λ r. r.id == id) reviews) ≡ ok r
      → In r reviews × (r.id ≡ id)
  scanned id reviews r h = elim (Option-cases (find_first (λ r. r.id == id) reviews)) [
    | inl e ↦ absurd (cc (rw e at h))
    | inr (o, e) ↦
        let (there, mine) = find_first-some (λ r. r.id == id) reviews {a = o} e in
        let found : scan_review (some o) ≡ ok r = rw e at h in
        let same : o ≡ r = ground arith in rw (← same) (there, (eq_iff o.id id).0 mine)
  ]

  get_by_id-ok :
      (review_id : String) (w : World) (r : Review)
      → (Reviews.get_by_id review_id w).0 ≡ ok r
      → IsFound review_id w.db r
  unfolding Reviews.get_by_id
  get_by_id-ok review_id w r h =
      let (ran, after) = query-ok (get_by_id_sql review_id) w h in found ran
    where
      found : (get_by_id_sql review_id w.now w.queries w.db).0 ≡ ok r → IsFound review_id w.db r
      found =
          unfold get_by_id_sql in
          with_uuid-cases (λ out. out.0 ≡ ok r → IsFound review_id w.db r) review_id _ w.now
            w.queries w.db (λ e h. absurd (cc h))
            (λ id e h. let (there, mine) = scanned id w.db.review r h in (id, e, there, mine))

  get_by_id-db : (review_id : String) (w : World) → (Reviews.get_by_id review_id w).1.db ≡ w.db
  unfolding Reviews.get_by_id
  get_by_id-db review_id w = query-read (get_by_id_sql review_id) w reads
    where
      reads : (get_by_id_sql review_id w.now w.queries w.db).1 ≡ w.db
      reads =
          unfold get_by_id_sql in
          with_uuid-cases (λ out. out.1 ≡ w.db) review_id _ w.now w.queries w.db (λ e. refl)
            (λ id e. refl)

  -- What the UPDATE of an edit has written.
  abbrev pub IsRewritten :
      String → String → UpdateReviewInput → Review → Db → ℕ → Review → Db → Type 0
  IsRewritten user_id review_id input current db now r after =
      (id : String) × (env.uuid_of review_id ≡ some id)
      × (r ≡ record (merge_review input current) { updated_at = now })
      × (after ≡ record db {
        review =
            update_where (is_own_review id user_id) (edited_review now (merge_review input current))
              db.review;
      })

  update_sql-ok :
      (user_id review_id : String) (input : UpdateReviewInput) (current : Review) (now n : ℕ)
      (db : Db) (r : Review)
      → (update_sql user_id review_id input current now n db).0 ≡ ok r
      → IsRewritten user_id review_id input current db now r
          (update_sql user_id review_id input current now n db).1
  unfolding update_sql
  update_sql-ok user_id review_id input current now n db r =
      with_uuid-cases
        (λ out. out.0 ≡ ok r → IsRewritten user_id review_id input current db now r out.1) review_id
        _ now n db (λ e h. absurd (cc h))
        (λ id e.
          elim (Bool-cases (
            fits_edit input (merge_review input current)
            && any (is_own_review id user_id) db.review)) [
              | inl there ↦ rw there (λ h. (id, e, ground arith, refl))
              | inr gone ↦ rw gone (λ h. absurd (cc h))
            ])

  update_sql-err :
      (user_id review_id : String) (input : UpdateReviewInput) (current : Review) (now n : ℕ)
      (db : Db) {x : Err}
      → (update_sql user_id review_id input current now n db).0 ≡ err x
      → (update_sql user_id review_id input current now n db).1 ≡ db
  unfolding update_sql
  update_sql-err user_id review_id input current now n db {x} =
      with_uuid-cases (λ out. out.0 ≡ err x → out.1 ≡ db) review_id _ now n db (λ e h. refl)
        (λ id e.
          elim (Bool-cases (
            fits_edit input (merge_review input current)
            && any (is_own_review id user_id) db.review)) [
              | inl there ↦ rw there (λ h. absurd (cc h))
              | inr gone ↦ rw gone (λ h. refl)
            ])

  -- An edit that was carried out: the review was found, and its author is the user.
  abbrev pub IsEdit : String → String → UpdateReviewInput → World → Review → Db → Type 0
  IsEdit user_id review_id input w r after =
      (current : Review) × IsFound review_id w.db current
      × (current.user_id ≡ some user_id)
      × IsRewritten user_id review_id input current w.db w.now r after

  get_by_id-now : (review_id : String) (w : World) → (Reviews.get_by_id review_id w).1.now ≡ w.now
  unfolding Reviews.get_by_id query
  get_by_id-now review_id w = ground arith

  write_edit :
      (user_id review_id : String) (input : UpdateReviewInput) (current : Review) → Exec Review
  write_edit user_id review_id input current =
      if is_author user_id current.user_id
      then query (update_sql user_id review_id input current)
      else raise record_not_found

  write_edit-ok :
      (user_id review_id : String) (input : UpdateReviewInput) (current : Review) (w : World)
      (r : Review)
      → (write_edit user_id review_id input current w).0 ≡ ok r
      → (current.user_id ≡ some user_id)
        × IsRewritten user_id review_id input current w.db w.now r
            (write_edit user_id review_id input current w).1.db
  unfolding write_edit
  write_edit-ok user_id review_id input current w r h =
      elim (Bool-cases (is_author user_id current.user_id)) [
        | inl mine ↦
            let (ran, after) =
              query-ok (update_sql user_id review_id input current) w (rw mine at h) in
            rw mine (
              author_is user_id current.user_id mine,
              subst (λ w'. IsRewritten user_id review_id input current w.db w.now r w'.db)
                  (sym after)
                  (update_sql-ok user_id review_id input current w.now w.queries w.db r ran),
            )
        | inr other ↦ absurd (cc (rw other at h))
      ]

  pub update-ok :
      (user_id review_id : String) (input : UpdateReviewInput) (w : World) (r : Review)
      → (Reviews.update user_id review_id input w).0 ≡ ok r
      → IsEdit user_id review_id input w r (Reviews.update user_id review_id input w).1.db
  unfolding Reviews.update write_edit
  update-ok user_id review_id input w r h =
      let (current, found, rest) =
        bind-ok (Reviews.get_by_id review_id) (write_edit user_id review_id input) w h in
      let w1 = (Reviews.get_by_id review_id w).1 in
      let (mine, wrote) =
        write_edit-ok user_id review_id input current w1 r (ap (λ o. o.0) (sym rest) ∙ h) in
      (
        current,
        get_by_id-ok review_id w current found,
        mine,
        subst (λ out. IsRewritten user_id review_id input current w.db w.now r out.1.db) (sym rest)
            (rw (get_by_id-db review_id w, get_by_id-now review_id w) at wrote),
      )

  write_edit-err :
      (user_id review_id : String) (input : UpdateReviewInput) (current : Review) (w : World)
      {x : Err}
      → (write_edit user_id review_id input current w).0 ≡ err x
      → (write_edit user_id review_id input current w).1.db ≡ w.db
  unfolding write_edit
  write_edit-err user_id review_id input current w h =
      elim (Bool-cases (is_author user_id current.user_id)) [
        | inl mine ↦
            rw mine
              (elim (query-err (update_sql user_id review_id input current) w (rw mine at h)) [
                | inl same ↦ same
                | inr (ran, same) ↦
                    same ∙ update_sql-err user_id review_id input current w.now w.queries w.db ran
              ])
        | inr other ↦ rw other refl
      ]

  pub update-err :
      (user_id review_id : String) (input : UpdateReviewInput) (w : World) {x : Err}
      → (Reviews.update user_id review_id input w).0 ≡ err x
      → (Reviews.update user_id review_id input w).1.db ≡ w.db
  unfolding Reviews.update write_edit
  update-err user_id review_id input w h =
      elim (bind-cases (Reviews.get_by_id review_id) (write_edit user_id review_id input) w) [
        | inl (d, missing, stopped) ↦ ap (λ out. out.1.db) stopped ∙ get_by_id-db review_id w
        | inr (current, found, rest) ↦
            ap (λ out. out.1.db) rest
            ∙ write_edit-err user_id review_id input current (Reviews.get_by_id review_id w).1
                (ap (λ out. out.0) (sym rest) ∙ h)
            ∙ get_by_id-db review_id w
      ]
