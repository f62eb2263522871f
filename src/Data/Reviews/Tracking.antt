-- ===== src/Data/Reviews/Tracking.antt =====
-- Which reviews are approved, followed through any order of the statements on them
-- (internal/data/reviews.go, and the purge of internal/data/users.go).
use gradconnect_api.Common.{
  ℕ, String, ◌≡◌, ◌≢◌, true, false, List, [], ◌==◌, eq_iff, arith, In, In-select, In-map, select,
  map,
}
use gradconnect_api.Store.{ok, Env, Db}
use gradconnect_api.Store.Content.{Review}
use gradconnect_api.Filters.{Filters, Metadata, sort_column}
use gradconnect_api.Data.Listing.{bind_key, by_id}
use gradconnect_api.Data.Listing.Members.{In-list_by}
use gradconnect_api.Data.Users
use gradconnect_api.Data.Reviews.{
  is_public, review_key, insert_sql, update_sql, delete_sql, moderate_sql,
  get_all_by_employer_slug_sql, hide_author,
}
use gradconnect_api.Data.Reviews.Validation.{CreateReviewInput, UpdateReviewInput}
use gradconnect_api.Data.Reviews.Approvals.{
  Approvals, edit_seen, decision_seen, IsTracked, insert-IsTracked, update-IsTracked,
  delete-IsTracked, moderate-IsTracked, purge-IsTracked,
}

module _ ⦃env : Env⦄ where
  -- The tables that a run without reviews at its start passes through, with the approvals so far. The
  -- UPDATE of an edit writes what it was merged from, however old that is.
  pub data Reached : Db → Approvals → Type 0 where
    start : (db : Db) → db.review ≡ [] → Reached db (λ id. false)
    submitted :
        (db : Db) (a : Approvals) (user_id : String) (input : CreateReviewInput) (now n : ℕ)
        → Reached db a
        → ((r : Review) → In r db.review → r.id ≢ env.uuid n)
        → Reached (insert_sql user_id input now n db).1 a
    edited :
        (db : Db) (a : Approvals) (user_id review_id : String) (input : UpdateReviewInput)
        (current : Review) (now n : ℕ)
        → Reached db a
        → Reached
            (update_sql user_id review_id input current now n db).1
            (edit_seen (update_sql user_id review_id input current now n db).0 review_id a)
    withdrawn :
        (db : Db) (a : Approvals) (user_id review_id : String) (now n : ℕ)
        → Reached db a
        → Reached (delete_sql user_id review_id now n db).1 a
    decided :
        (db : Db) (a : Approvals) (review_id status : String) (now n : ℕ)
        → Reached db a
        → Reached (moderate_sql review_id status now n db).1 (decision_seen status review_id a)
    purged :
        (db : Db) (a : Approvals) (grace now n : ℕ)
        → Reached db a
        → Reached (Users.purge_soft_deleted_sql grace now n db).1 a
    elsewhere :
        (db after : Db) (a : Approvals) → Reached db a → after.review ≡ db.review → Reached after a

  pub Reached-IsTracked : {db : Db} {a : Approvals} → Reached db a → IsTracked db.review a
  Reached-IsTracked (start db e) = rw e ((λ r i. absurd i), (λ r s i. absurd i))
  Reached-IsTracked (submitted db a user_id input now n r fresh) =
      insert-IsTracked user_id input now n db a fresh (Reached-IsTracked r)
  Reached-IsTracked (edited db a user_id review_id input current now n r) =
      update-IsTracked user_id review_id input current now n db a (Reached-IsTracked r)
  Reached-IsTracked (withdrawn db a user_id review_id now n r) =
      delete-IsTracked user_id review_id now n db a (Reached-IsTracked r)
  Reached-IsTracked (decided db a review_id status now n r) =
      moderate-IsTracked review_id status now n db a (Reached-IsTracked r)
  Reached-IsTracked (purged db a grace now n r) =
      purge-IsTracked grace now n db a (Reached-IsTracked r)
  Reached-IsTracked (elsewhere db after a r same) = rw same (Reached-IsTracked r)

  -- After any sequence of submissions with new ids, edits, withdrawals, moderations, purges of users and
  -- statements that leave reviews alone, from tables without reviews, the public list of an employer shows
  -- only reviews whose latest decision is an approval and which no edit has changed since.
  pub get_all_by_employer_slug_sql-approved :
      {db : Db} {a : Approvals} (slug : String) (filters : Filters) (now n : ℕ) (rows : List Review)
      (m : Metadata) (r : Review)
      → Reached db a
      → (get_all_by_employer_slug_sql slug filters now n db).0 ≡ ok (rows, m)
      → In r rows
      → a r.id ≡ true
  unfolding get_all_by_employer_slug_sql
  get_all_by_employer_slug_sql-approved {db} {a} slug filters now n rows m r reached h i =
      let found = select (is_public slug db.employer) db.review in
      let listed =
        In-list_by (by_id (λ r. r.id)) (bind_key (sort_column filters) review_key) filters
          (map hide_author found) rows m r h i in
      let (o, j, e) = In-map hide_author found r listed in
      let (there, shown) = In-select (is_public slug db.employer) db.review o j in
      let approved : (o.status == "approved") ≡ true = ground arith in
      rw e ((Reached-IsTracked reached).0 o there ((eq_iff o.status "approved").0 approved))
