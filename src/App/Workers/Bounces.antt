-- ===== src/App/Workers/Bounces.antt =====
-- That a bounce or a complaint stops the mail to each of its addresses (internal/app/workers.go).
use gradconnect_api.Common.{
  ℕ, String, ◌≡◌, ◌≢◌, refl, ◌∙◌, ap, ◌⊎◌, inl, inr, Bool, true, false, not, none, some, List, [],
  ◌∷◌, ◌==◌, ◌&&◌, arith, any, contains, In, find_first, update_where, if-cases, Bool-cases, eq_iff,
}
use gradconnect_api.Store.{Err, failure, Result, ok, err, Env, Db, World, query}
use gradconnect_api.Store.Rows.{AppUser, Payload}
use gradconnect_api.Store.Transactions.{query-ok}
use gradconnect_api.Data.Users
use gradconnect_api.App.Mail.{handed_over, scan_status, email_status_sql, send_if_deliverable}
use gradconnect_api.App.Mail.Laws.{status_read, decided, marked_rows}
use gradconnect_api.Worker.{HandlerFunc}
use gradconnect_api.App.Workers.{
  Services, BouncePayload, mark_each, handle_ses_bounce, handle_ses_complaint,
}

-- There is a user of the address; and the first one has the status.
abbrev pub IsKnown : String → Db → Type 0
IsKnown email db = any (λ r. r.email == email) db.app_user ≡ true

abbrev pub IsMarked : String → String → Db → Type 0
IsMarked email status db = scan_status (find_first (λ r. r.email == email) db.app_user) ≡ ok status

-- Setting the status of some rows leaves a row that has it already, and every address.
still_marked :
    (email status : String) (p : AppUser → Bool) (f : AppUser → AppUser) (rows : List AppUser)
    → ((r : AppUser) → ((f r).email ≡ r.email) × ((f r).email_status ≡ status))
    → scan_status (find_first (λ r. r.email == email) rows) ≡ ok status
    → scan_status (find_first (λ r. r.email == email) (update_where p f rows)) ≡ ok status
unfolding find_first update_where
still_marked email status p f [] set h = h
still_marked email status p f (r ∷ rows) set h = elim (Bool-cases (p r)) [
  | inl e ↦ elim (Bool-cases (r.email == email)) [
    | inl mine ↦
        let kept : ((f r).email == email) ≡ true = ap (λ x. x == email) (set r).0 ∙ mine in
        rw (e, kept) (ap (λ s. ok s) (set r).1)
    | inr other ↦
        let kept : ((f r).email == email) ≡ false = ap (λ x. x == email) (set r).0 ∙ other in
        rw (e, kept) (still_marked email status p f rows set (rw other at h))
  ]
  | inr e ↦ elim (Bool-cases (r.email == email)) [
    | inl mine ↦ rw (e, mine) (rw mine at h)
    | inr other ↦ rw (e, other) (still_marked email status p f rows set (rw other at h))
  ]
]

still_known :
    (email : String) (p : AppUser → Bool) (f : AppUser → AppUser) (rows : List AppUser)
    → ((r : AppUser) → (f r).email ≡ r.email)
    → any (λ r. r.email == email) (update_where p f rows) ≡ any (λ r. r.email == email) rows
unfolding any update_where
still_known email p f [] set = refl
still_known email p f (r ∷ rows) set = elim (Bool-cases (p r)) [
  | inl e ↦
      let kept : ((f r).email == email) ≡ (r.email == email) = ap (λ x. x == email) (set r) in
      rw (e, kept, still_known email p f rows set) refl
  | inr e ↦ rw (e, still_known email p f rows set) refl
]

module _ ⦃env : Env⦄ where
  abbrev set_status : String → ℕ → AppUser → AppUser
  set_status status now r = record r {
    user = record r.user { updated_at = now };
    email_status = status;
    email_status_updated_at = some now;
  }

  -- The statement leaves the users alone, or sets the status of those of its address.
  statement_keeps :
      (Q : List AppUser → Type 0) (email status : String) (now n : ℕ) (db : Db)
      → Q db.app_user
      → Q (update_where (λ r. r.email == email) (set_status status now) db.app_user)
      → Q (Users.mark_email_status_sql email status now n db).1.app_user
  unfolding Users.mark_email_status_sql
  statement_keeps Q email status now n db before after =
      let P : Result (Unit {0}) × Db → Type 0 = λ out. Q out.1.app_user in
      if-cases P
        (any (λ r. r.email == email) db.app_user && not (contains Users.email_statuses status))
        (err failure, db)
        (
          ok tt,
          record db {
            app_user = update_where (λ r. r.email == email) (set_status status now) db.app_user;
          },
        )
        (λ _. before) (λ _. after)

  -- One round of the loop that got no error.
  mark_email_status-IsMarked :
      (status x email : String) (xs : List String) (w : World)
      → (Users.mark_email_status x status w).0 ≡ ok tt
      → IsMarked email status w.db ⊎ (In email (x ∷ xs) × IsKnown email w.db)
      → IsMarked email status (Users.mark_email_status x status w).1.db
        ⊎ (In email xs × IsKnown email (Users.mark_email_status x status w).1.db)
  unfolding Users.mark_email_status
  mark_email_status-IsMarked status x email xs w is h =
      let (ran, same) = query-ok (Users.mark_email_status_sql x status) w is in
      let set = set_status status w.now in
      let mine : AppUser → Bool = λ r. r.email == x in
      elim h [
        | inl marked ↦ rw same (
            inl (
              statement_keeps
                (λ rows. scan_status (find_first (λ r. r.email == email) rows) ≡ ok status) x status
                w.now w.queries w.db marked
                (still_marked email status mine set w.db.app_user (λ r. (refl, refl)) marked)))
        | inr (inl here, known) ↦
            rw (same, here) (inl (marked_rows x status w.now w.queries w.db ran (rw here at known)))
        | inr (inr later, known) ↦ rw same (
            inr (
              later,
              statement_keeps (λ rows. any (λ r. r.email == email) rows ≡ true) x status w.now
                  w.queries w.db known
                  (still_known email mine set w.db.app_user (λ r. refl) ∙ known),
            ))
      ]

  done_or_not : (r : Result (Unit {0})) → (r ≡ ok tt) ⊎ ((e : Err) × (r ≡ err e))
  done_or_not (ok _) = inl refl
  done_or_not (err e) = inr (e, refl)

  -- After the loop each address that was marked before it, or is one of its addresses and belongs to a
  -- user, is marked.
  mark_each-IsMarked :
      (status : String) (emails : List String) (w : World) (email : String)
      → (mark_each status emails w).0 ≡ none
      → IsMarked email status w.db ⊎ (In email emails × IsKnown email w.db)
      → IsMarked email status (mark_each status emails w).1.db
  unfolding mark_each
  mark_each-IsMarked status [] w email done (inl marked) = marked
  mark_each-IsMarked status [] w email done (inr (i, known)) = absurd i
  mark_each-IsMarked status (x ∷ xs) w email done h =
      elim (done_or_not (Users.mark_email_status x status w).0) [
        | inr (e, failed) ↦ absurd (cc (rw (mark_each, failed) at done))
        | inl is ↦
            rw (mark_each, is)
              (mark_each-IsMarked status xs (Users.mark_email_status x status w).1 email
                (rw (mark_each, is) at done) (mark_email_status-IsMarked status x email xs w is h))
      ]

  -- An address that is marked with another status than active is not sent to.
  marked_not_sent :
      (email status : String) (w : World)
      → status ≢ "active"
      → IsMarked email status w.db
      → (send_if_deliverable email w).0 ≢ ok handed_over
  unfolding send_if_deliverable
  marked_not_sent email status w bad marked =
      decided (query (email_status_sql email) w).0 status
        (elim (status_read email w) [ inl failed ↦ inl failed | inr read ↦ inr (read ∙ marked) ])
        bad

  bounced_ne : ◌≢◌ {A = String} "bounced" "active"
  bounced_ne = ground (arith, eq_iff "bounced" "active")

  complained_ne : ◌≢◌ {A = String} "complained" "active"
  complained_ne = ground (arith, eq_iff "complained" "active")

  -- The report of a permanent bounce or of a complaint that names the address, with its job.
  pub data IsReport (services : Services) (payload : Payload) (email : String)
      : HandlerFunc → Type 0 where
    bounced :
        (b : BouncePayload)
        → services.unmarshal_bounce payload ≡ some b
        → b.bounce_type ≡ "Permanent"
        → In email b.bounced_recipients
        → IsReport services payload email (handle_ses_bounce services)
    complained :
        (emails : List String)
        → services.unmarshal_complaint payload ≡ some emails
        → In email emails
        → IsReport services payload email (handle_ses_complaint services)

  -- Once the job of a permanent bounce, or that of a complaint, has succeeded, sendIfDeliverable does not
  -- let an email to any of its addresses that belongs to a user through to the mailer. The job that mails
  -- the deletion of an account does not ask it.
  pub IsReport-not_sent :
      (services : Services) (payload : Payload) (email : String) {job : HandlerFunc} (w : World)
      → IsReport services payload email job
      → IsKnown email w.db
      → (job payload w).0 ≡ none
      → (send_if_deliverable email (job payload w).1).0 ≢ ok handed_over
  unfolding handle_ses_bounce handle_ses_complaint
  IsReport-not_sent services payload email w (bounced b is permanent i) known done =
      let hard : (b.bounce_type == "Permanent") ≡ true =
        (eq_iff b.bounce_type "Permanent").1 permanent in
      rw (is, hard)
        (marked_not_sent email "bounced" (mark_each "bounced" b.bounced_recipients w).1 bounced_ne (
          mark_each-IsMarked "bounced" b.bounced_recipients w email (rw (is, hard) at done)
            (inr (i, known))))
  IsReport-not_sent services payload email w (complained emails is i) known done = rw is (
      marked_not_sent email "complained" (mark_each "complained" emails w).1 complained_ne
        (mark_each-IsMarked "complained" emails w email (rw is at done) (inr (i, known))))
