-- ===== src/Data/Reviews/Decisions.antt =====
-- What `Moderate` of internal/data/reviews.go has done when it returns.
use gradconnect_api.Common.{
  ℕ, String, ◌≡◌, refl, ap, ◌⊎◌, inl, inr, true, Option, none, some, ◌==◌, eq_iff, Bool-cases,
  Option-cases, find_first, find_first-some, update_where, contains, is_some, In, In-update_where,
  update_where-none,
}
use gradconnect_api.Store.{Err, record_not_found, failure, Result, ok, err, Env, Db, World, query}
use gradconnect_api.Store.Content.{Review}
use gradconnect_api.Data.Ids.{with_uuid-cases}
use gradconnect_api.Data.Reviews
use gradconnect_api.Data.Reviews.{moderate_sql, moderated, scan_review}
use gradconnect_api.Data.Reviews.Validation.{permitted_review_list_statuses}

-- The tables with a decision written to the rows of an id.
abbrev pub decided : ℕ → String → String → Db → Db
decided now id status db = record db {
  review = update_where (λ r. r.id == id) (moderated now status) db.review;
}

module _ ⦃env : Env⦄ where
  -- The decision is written to a row of the table, which then has an author, or has none.
  abbrev pub IsDecision : String → String → ℕ → Db → (Review → Type 0) → Db → Type 0
  IsDecision review_id status now db P after =
      (id : String) × (o r : Review) × (env.uuid_of review_id ≡ some id)
      × In o db.review
      × (o.id ≡ id)
      × (r ≡ moderated now status o)
      × In r after.review
      × (r.id ≡ id)
      × (r.status ≡ status)
      × P r
      × (after ≡ decided now id status db)

  written_row :
      (now : ℕ) (id status : String) (db : Db) (r : Review)
      → find_first (λ r. r.id == id) (decided now id status db).review ≡ some r
      → (o : Review) × In o db.review
        × (o.id ≡ id)
        × (r ≡ moderated now status o)
        × In r (decided now id status db).review
        × (r.id ≡ id)
        × (r.status ≡ status)
  written_row now id status db r e =
      let (there, mine) =
        find_first-some (λ (r : Review). r.id == id) (decided now id status db).review {a = r} e in
      let same_id : r.id ≡ id = (eq_iff r.id id).0 mine in
      let (o, j, is) = In-update_where (λ r. r.id == id) (moderated now status) db.review r there in
      elim (Bool-cases (o.id == id)) [
        | inl hit ↦
            let was : r ≡ moderated now status o = rw hit at is in
            (o, j, (eq_iff o.id id).0 hit, was, there, same_id, ap (λ x. x.status) was)
        | inr miss ↦
            let was : r ≡ o = rw miss at is in
            absurd (cc (miss, ap (λ (x : Review). x.id == id) was, mine))
      ]

  -- A moderation returns a row with an author, or an error; behind an error nothing is written, or the
  -- row has no author.
  abbrev pub IsModeration : String → String → ℕ → Db → Result Review × Db → Type 0
  IsModeration review_id status now db out =
      ((r : Review) × (out.0 ≡ ok r)
        × IsDecision review_id status now db (λ x. (x ≡ r) × (is_some x.user_id ≡ true)) out.1)
      ⊎ ((e : Err) × (out.0 ≡ err e)
          × ((out.1 ≡ db)
              ⊎ ((e ≡ failure) × IsDecision review_id status now db (λ x. x.user_id ≡ none) out.1)))

  written_cases :
      (review_id id status : String) (now : ℕ) (db : Db) (o : Option Review)
      → env.uuid_of review_id ≡ some id
      → find_first (λ r. r.id == id) (decided now id status db).review ≡ o
      → IsModeration review_id status now db (scan_review o, decided now id status db)
  written_cases review_id id status now db none e found =
      let same =
        update_where-none (λ r. r.id == id) (moderated now status) db.review (λ r h. h) found in
      inr (record_not_found, refl, inl (ap (λ rows. record db { review = rows }) same))
  written_cases review_id id status now db (some r) e found =
      let (o, row, its, was, kept, same_id, same_status) = written_row now id status db r found in
      elim (Option-cases r.user_id) [
        | inl gone ↦ inr (
          failure,
          rw gone refl,
          inr (refl, (id, o, r, e, row, its, was, kept, same_id, same_status, gone, refl)),
        )
        | inr (author, there) ↦ inl (
          r,
          rw there refl,
          (id, o, r, e, row, its, was, kept, same_id, same_status, (refl, rw there refl), refl),
        )
      ]

  moderate_sql-IsModeration :
      (review_id status : String) (now n : ℕ) (db : Db)
      → IsModeration review_id status now db (moderate_sql review_id status now n db)
  unfolding moderate_sql
  moderate_sql-IsModeration review_id status now n db =
      with_uuid-cases (IsModeration review_id status now db) review_id _ now n db
        (λ e. inr (failure, refl, inl refl))
        (λ id e. elim (Bool-cases (contains permitted_review_list_statuses status)) [
          | inl known ↦ rw known (written_cases review_id id status now db _ e refl)
          | inr unknown ↦ rw unknown (inr (failure, refl, inl refl))
        ])

  -- `Moderate`, whether or not the driver fails it.
  pub moderate-IsModeration :
      (review_id status : String) (w : World)
      → IsModeration review_id status w.now w.db
          ((Reviews.moderate review_id status w).0, (Reviews.moderate review_id status w).1.db)
  unfolding Reviews.moderate query
  moderate-IsModeration review_id status w = elim (Bool-cases (env.fails w.queries)) [
    | inl failed ↦ rw failed (inr (failure, refl, inl refl))
    | inr ran ↦ rw ran (moderate_sql-IsModeration review_id status w.now w.queries w.db)
  ]
