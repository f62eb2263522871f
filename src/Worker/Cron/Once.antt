-- ===== src/Worker/Cron/Once.antt =====
-- That a daily job of internal/worker/cron.go is done once a day.
use gradconnect_api.Common.{
  ℕ, String, ◌≡◌, refl, ap, ◌∙◌, ◌⊎◌, inl, inr, some, map, Bool, true, false, List, [], ◌∷◌, ◌++◌,
  ◌==◌, eqb, arith, if-cases, Bool-cases, In, any, any-eq-true, any_intro, update_where, eq_refl,
}
use gradconnect_api.Store.{Err, Env, Db, World, ok, err, Result, tick, query}
use gradconnect_api.Store.Transactions.{query-tables}
use gradconnect_api.Store.{record_not_found}
use gradconnect_api.Store.Content.{CronRun}
use gradconnect_api.Data.Bookmarks.Reminders.{lagos_date, lagos_hour}
use gradconnect_api.Worker.Cron.{
  is_run, claim_run_sql, complete_run_sql, complete_run, new_run, run_daily, run_claimed, rate_each,
  rate_employer_sql, employer_ids_sql, recalculate_all_employer_ratings, maybe_run_recalc_ratings,
  run_recalc_ratings_now, claimed_by_hand,
}

-- The table of runs has a row of the job for the date.
abbrev pub HasRun : String → ℕ → Db → Type 0
HasRun job date db = any (is_run job date) db.cron_run ≡ true

any-update_where :
    {A : Type 0} (p q : A → Bool) (f : A → A) (xs : List A)
    → ((a : A) → p (f a) ≡ p a)
    → any p (update_where q f xs) ≡ any p xs
unfolding any update_where
any-update_where p q f [] same = refl
any-update_where p q f (x ∷ xs) same = elim (Bool-cases (q x)) [
  | inl e ↦ rw (e, same x, any-update_where p q f xs same) refl
  | inr e ↦ rw (e, any-update_where p q f xs same) refl
]

any_last :
    {A : Type 0} (p : A → Bool) (xs : List A) (a : A) → p a ≡ true → any p (xs ++ a ∷ []) ≡ true
unfolding any
any_last p [] a h = rw h refl
any_last p (x ∷ xs) a h = ground (arith, any_last p xs a h)

eqb_refl : (n : ℕ) → eqb n n ≡ true
eqb_refl n = ground arith

module _ ⦃env : Env⦄ where
  complete_run-HasRun :
      (job run_id : String) (date count : ℕ) (w : World)
      → HasRun job date w.db
      → HasRun job date (complete_run run_id count w).db
  unfolding complete_run complete_run_sql
  complete_run-HasRun job run_id date count w h =
      elim (query-tables (complete_run_sql count run_id) w) [
        | inl same ↦ rw same h
        | inr ran ↦
            rw
              (
                ran,
                any-update_where (is_run job date) (λ r. r.id == run_id)
                    (λ r. record r { completed_at = some w.now; enqueued_count = count })
                    w.db.cron_run (λ r. refl),
              )
              h
      ]

  -- A claim fails and changes nothing, or the row of the run is there.
  claim-cases :
      (job : String) (date : ℕ) (w : World)
      → ((e : Err) × ((query (claim_run_sql job date) w).0 ≡ err e)
          × ((query (claim_run_sql job date) w).1.db ≡ w.db))
        ⊎ ((id : String) × ((query (claim_run_sql job date) w).0 ≡ ok id)
            × (any (is_run job date) w.db.cron_run ≡ false)
            × HasRun job date (query (claim_run_sql job date) w).1.db)
  unfolding query claim_run_sql
  claim-cases job date w = elim (Bool-cases (env.fails w.queries)) [
    | inl e ↦ rw e (inl (_, refl, refl))
    | inr e ↦ elim (Bool-cases (any (is_run job date) w.db.cron_run)) [
      | inl there ↦ rw (e, there) (inl (_, refl, refl))
      | inr free ↦
          rw (e, free)
            (inr (
              _,
              refl,
              refl,
              any_last (is_run job date) w.db.cron_run (new_run w.now w.queries job date)
                  (rw (eq_refl job, eqb_refl date) refl),
            ))
    ]
  ]

  rate_each-cron_run :
      (ids : List String) (w : World) → (rate_each ids w).1.db.cron_run ≡ w.db.cron_run
  unfolding rate_each query rate_employer_sql
  rate_each-cron_run [] w = refl
  rate_each-cron_run (id ∷ ids) w =
      rate_each-cron_run ids (query (rate_employer_sql id) w).1 ∙ ground arith

  recalculate-cron_run :
      (w : World) → (recalculate_all_employer_ratings w).1.db.cron_run ≡ w.db.cron_run
  unfolding recalculate_all_employer_ratings query employer_ids_sql
  recalculate-cron_run w = elim (Bool-cases (env.fails w.queries)) [
    | inl e ↦ rw e refl
    | inr e ↦ rw e (rate_each-cron_run (map (λ e. e.id) w.db.employer) (tick w))
  ]

  -- A scheduled pass of the job, or a run that an administrator starts.
  pub data RecalcRun : World → World → Type 0 where
    scheduled : (w : World) → RecalcRun w (maybe_run_recalc_ratings w)
    by_hand : (w : World) → RecalcRun w (run_recalc_ratings_now w).1

  abbrev Today : World → Db → Type 0
  Today w db = HasRun "recalculate_ratings" (lagos_date w.now) db

  refused_by_hand : (e : Err) (v : World) → (claimed_by_hand (err e, v)).1 ≡ v
  refused_by_hand record_not_found v = refl
  refused_by_hand _ v = refl

  complete_run-Today :
      (w v : World) (run_id : String)
      → Today w v.db
      → Today w
          (complete_run run_id
            (recalculate_all_employer_ratings v).0
            (recalculate_all_employer_ratings v).1).db
  complete_run-Today w v run_id h =
      complete_run-HasRun "recalculate_ratings" run_id (lagos_date w.now)
        (recalculate_all_employer_ratings v).0 (recalculate_all_employer_ratings v).1
        (rw (recalculate-cron_run v) h)

  -- A failed claim, or one that has put in the row of the day.
  abbrev Claimed : World → Result String × World → Type 0
  Claimed w claim =
      ((e : Err) × (claim.0 ≡ err e) × (claim.1.db ≡ w.db))
      ⊎ ((id : String) × (claim.0 ≡ ok id)
          × (any (is_run "recalculate_ratings" (lagos_date w.now)) w.db.cron_run ≡ false)
          × Today w claim.1.db)

  -- The tables are as before, or the row of the day was not there and is now.
  abbrev Once : World → Db → Type 0
  Once w db =
      (db ≡ w.db)
      ⊎ ((any (is_run "recalculate_ratings" (lagos_date w.now)) w.db.cron_run ≡ false) × Today w db)

  Claimed-Once :
      (w : World) (claim : Result String × World)
      → Claimed w claim
      → Once w (run_claimed recalculate_all_employer_ratings claim).db
        × Once w (claimed_by_hand claim).1.db
  Claimed-Once w (err e, v) (inl (_, _, same)) =
      (inl same, inl (ap (λ v. v.db) (refused_by_hand e v) ∙ same))
  Claimed-Once w (err e, v) (inr (_, is, _, _)) = absurd (cc is)
  Claimed-Once w (ok id, v) (inl (_, is, _)) = absurd (cc is)
  Claimed-Once w (ok id, v) (inr (_, _, free, row)) =
      let done = complete_run-Today w v id row in (inr (free, done), inr (free, done))

  -- Any of them leaves the tables alone, or claims the run of its day.
  RecalcRun-Once : {w out : World} → RecalcRun w out → Once w out.db
  unfolding maybe_run_recalc_ratings run_recalc_ratings_now run_daily
  RecalcRun-Once (scheduled w) =
      let claim = query (claim_run_sql "recalculate_ratings" (lagos_date w.now)) w in
      if-cases (λ v. Once w v.db) (eqb (lagos_hour w.now) 3)
        (run_claimed recalculate_all_employer_ratings claim) w
        (λ due. (Claimed-Once w claim (claim-cases "recalculate_ratings" (lagos_date w.now) w)).0)
        (λ other. inl refl)
  RecalcRun-Once (by_hand w) =
      let claim = query (claim_run_sql "recalculate_ratings" (lagos_date w.now)) w in
      (Claimed-Once w claim (claim-cases "recalculate_ratings" (lagos_date w.now) w)).1

  -- Of two runs of the recalculation on one day in Lagos, scheduled or by hand, at most one changes the
  -- tables, if no row of the table of runs is deleted between them.
  pub RecalcRun-at_most_once :
      {w out v after : World}
      → RecalcRun w out
      → RecalcRun v after
      → lagos_date v.now ≡ lagos_date w.now
      → ((r : CronRun) → In r out.db.cron_run → In r v.db.cron_run)
      → (out.db ≡ w.db) ⊎ (after.db ≡ v.db)
  RecalcRun-at_most_once {w} {out} {v} first second same_day kept = elim (RecalcRun-Once first) [
    | inl idle ↦ inl idle
    | inr (free, row) ↦ elim (RecalcRun-Once second) [
      | inl idle ↦ inr idle
      | inr (absent, _) ↦
          let p = is_run "recalculate_ratings" (lagos_date w.now) in
          let (r, there, is) = any-eq-true p out.db.cron_run row in
          let still : any p v.db.cron_run ≡ true = any_intro p v.db.cron_run r (kept r there) is in
          absurd (cc (rw same_day at absent, still))
    ]
  ]
