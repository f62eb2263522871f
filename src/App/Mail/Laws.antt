-- ===== src/App/Mail/Laws.antt =====
-- A bounce or a complaint stops the mail (internal/data/users.go, `MarkEmailStatus`, and
-- internal/app/helpers.go, `sendIfDeliverable`).
use gradconnect_api.Common.{
  ℕ, String, ◌≡◌, ◌≢◌, refl, sym, ap, subst, ◌∙◌, ◌⊎◌, inl, inr, true, not, some, List, [], ◌∷◌,
  ◌==◌, arith, any, contains, ◌&&◌, find_first, update_where, if-cases, Bool-cases, eq-eq-false,
}
use gradconnect_api.Store.{failure, Result, ok, err, Env, Db, World, query}
use gradconnect_api.Store.Rows.{AppUser}
use gradconnect_api.Store.Transactions.{query-ok}
use gradconnect_api.Data.Users
use gradconnect_api.App.Mail.{
  handed_over, scan_status, email_status_sql, decide, send_if_deliverable,
}

-- The first row of the address after its status has been set.
marked_first :
    (email status : String) (f : AppUser → AppUser) (rows : List AppUser)
    → ((r : AppUser) → ((f r).email ≡ r.email) × ((f r).email_status ≡ status))
    → any (λ r. r.email == email) rows ≡ true
    → scan_status (find_first (λ r. r.email == email) (update_where (λ r. r.email == email) f rows))
      ≡ ok status
unfolding any find_first update_where
marked_first email status f [] set h = cc
marked_first email status f (r ∷ rows) set h = elim (Bool-cases (r.email == email)) [
  | inl e ↦
      let mine : ((f r).email == email) ≡ true = ap (λ x. x == email) (set r).0 ∙ e in
      rw (e, mine) (ap (λ s. ok s) (set r).1)
  | inr e ↦ rw (e, e) (marked_first email status f rows set (ground arith))
]

module _ ⦃env : Env⦄ where
  pub marked_rows :
      (email status : String) (now n : ℕ) (db : Db)
      → (Users.mark_email_status_sql email status now n db).0 ≡ ok tt
      → any (λ r. r.email == email) db.app_user ≡ true
      → scan_status (
          find_first
            (λ r. r.email == email)
            (Users.mark_email_status_sql email status now n db).1.app_user)
        ≡ ok status
  unfolding Users.mark_email_status_sql
  marked_rows email status now n db ran known =
      let marked : AppUser → AppUser = λ r. record r {
        user = record r.user { updated_at = now };
        email_status = status;
        email_status_updated_at = some now;
      } in
      let P : Result (Unit {0}) × Db → Type 0 = λ out.
        out.0 ≡ ok tt
        → scan_status (find_first (λ r. r.email == email) out.1.app_user) ≡ ok status in
      if-cases P
        (any (λ r. r.email == email) db.app_user && not (contains Users.email_statuses status))
        (err failure, db)
        (ok tt, record db { app_user = update_where (λ r. r.email == email) marked db.app_user })
        (λ _ e. cc) (λ _ e. marked_first email status marked db.app_user (λ r. (refl, refl)) known)
        ran

  pub status_read :
      (email : String) (w : World)
      → ((query (email_status_sql email) w).0 ≡ err failure)
        ⊎ ((query (email_status_sql email) w).0
            ≡ scan_status (find_first (λ r. r.email == email) w.db.app_user))
  unfolding query email_status_sql
  status_read email w = elim (Bool-cases (env.fails w.queries)) [
    | inl e ↦ inl (rw e refl)
    | inr e ↦ inr (rw e refl)
  ]

  pub decided :
      (r : Result String) (status : String)
      → (r ≡ err failure) ⊎ (r ≡ ok status)
      → status ≢ "active"
      → decide r ≢ ok handed_over
  decided r status (inl e) bad = rw e (λ h. cc)
  decided r status (inr e) bad = rw (e, eq-eq-false status "active" bad) (λ h. cc)

  -- Once the address of a user has been marked with a status other than active, no email to it is
  -- handed to the mailer: it is suppressed, or the lookup of the status fails.
  pub send_if_deliverable-marked :
      (email status : String) (w : World)
      → any (λ r. r.email == email) w.db.app_user ≡ true
      → status ≢ "active"
      → (Users.mark_email_status email status w).0 ≡ ok tt
      → (send_if_deliverable email (Users.mark_email_status email status w).1).0 ≢ ok handed_over
  unfolding send_if_deliverable Users.mark_email_status
  send_if_deliverable-marked email status w known bad marked =
      let w1 : World = (Users.mark_email_status email status w).1 in
      let (ran, same) = query-ok (Users.mark_email_status_sql email status) w marked in
      let stored : scan_status (find_first (λ r. r.email == email) w1.db.app_user) ≡ ok status =
        subst (λ w'. scan_status (find_first (λ r. r.email == email) w'.db.app_user) ≡ ok status)
          (sym same) (marked_rows email status w.now w.queries w.db ran known) in
      decided (query (email_status_sql email) w1).0 status
        (elim (status_read email w1) [ inl failed ↦ inl failed | inr read ↦ inr (read ∙ stored) ])
        bad
