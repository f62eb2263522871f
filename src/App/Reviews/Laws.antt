-- ===== src/App/Reviews/Laws.antt =====
-- What the moderation endpoint does (internal/app/reviews.go, `moderateReviewHandler`).
use gradconnect_api.Common.{
  suc, String, ◌≡◌, ◌≢◌, refl, sym, ap, ◌∙◌, ◌⊎◌, inl, inr, true, some, none, [], ◌∷◌, ◌++◌, ◌==◌,
  eq_iff, arith, Bool-cases, contains, is_some, In,
}
use gradconnect_api.Validator.{valid, new, permitted_value}
use gradconnect_api.Validator.Laws.{valid-check}
use gradconnect_api.Store.{Err, record_not_found, Env, Db, World, tick}
use gradconnect_api.Store.Rows.{fields}
use gradconnect_api.Store.Content.{Review}
use gradconnect_api.Data.Tasks
use gradconnect_api.Data.Tasks.{new_task}
use gradconnect_api.Data.Reviews
use gradconnect_api.Store.Transactions.{query-world}
use gradconnect_api.Data.Reviews.{moderate_sql, moderated}
use gradconnect_api.Data.Reviews.Decisions.{decided, moderate-IsModeration}
use gradconnect_api.Data.Reviews.Validation.{
  ModerateReviewInput, validate_moderate_review_input, permitted_moderation_statuses,
}
use gradconnect_api.App.Http.{
  Response, respond, review_data, Decoded, decoded, read_json-cases, attempt, not_found_or_error,
  server_error_response,
}
use gradconnect_api.App.Queries.{with_id}
use gradconnect_api.App.Auth.Steps.{when_valid-cases}
use gradconnect_api.App.Reviews.{queue_recalc, decide_review, moderate_review_handler}

accepted_status :
    (input : ModerateReviewInput)
    → valid (validate_moderate_review_input input new) ≡ true
    → (input.status ≡ "approved") ⊎ (input.status ≡ "rejected")
unfolding validate_moderate_review_input permitted_value contains
accepted_status input h =
    let listed : contains permitted_moderation_statuses input.status ≡ true =
      unfold permitted_value in ground (arith, simp valid-check at h) in
    elim (Bool-cases ("approved" == input.status)) [
      | inl e ↦ inl (sym ((eq_iff "approved" input.status).0 e))
      | inr e ↦
          let other : ("rejected" == input.status) ≡ true = ground arith in
          inr (sym ((eq_iff "rejected" input.status).0 other))
    ]

pub refused-ne-200 : (e : Err) (w : World) → (not_found_or_error e w).0.status ≢ 200
refused-ne-200 record_not_found w = λ s. omega arith
refused-ne-200 _ w = λ s. omega arith

pub refused-db : (e : Err) (w : World) → (not_found_or_error e w).1 ≡ w
refused-db record_not_found w = refl
refused-db _ w = refl

module _ ⦃env : Env⦄ where
  -- The tables behind an answered decision: a rejection queues nothing; an approval queues the
  -- recalculation of the employer's ratings, unless the driver fails that INSERT.
  abbrev pub IsSettled : String → Review → World → Db → Db → Type 0
  IsSettled status r w written after =
      ((status ≡ "rejected") × (after ≡ written))
      ⊎ ((status ≡ "approved")
          × (((env.fails (suc w.queries) ≡ true) × (after ≡ written))
              ⊎ (after ≡ record written {
                task_queue =
                    written.task_queue
                    ++ new_task w.now (suc w.queries) "employer:recalc_ratings"
                        (fields (("employer_id", r.employer_id) ∷ []))
                      ∷ [];
              })))

  settled :
      (status : String) (r : Review) (w : World) (written : Db)
      → (status ≡ "approved") ⊎ (status ≡ "rejected")
      → ((queue_recalc status r (record (tick w) { db = written })).0 ≡ respond 200 (review_data r))
        × IsSettled status r w written
            (queue_recalc status r (record (tick w) { db = written })).1.db
  unfolding queue_recalc attempt Tasks.insert
  settled status r w written (inl approved) =
      rw approved (elim (Bool-cases (env.fails (suc w.queries))) [
        | inl failed ↦ rw failed (refl, inr (refl, inl (refl, refl)))
        | inr ran ↦ rw ran (refl, inr (refl, inr refl))
      ])
  settled status r w written (inr rejected) = rw rejected (refl, inl (refl, refl))

  -- The outcome of a moderation request for the id in the path.
  abbrev pub ReviewModeration :
      String → Decoded ModerateReviewInput → World → Response × World → Type 0
  ReviewModeration id_param body w out =
      ((input : ModerateReviewInput) × (id : String) × (o r : Review) × (body ≡ decoded input true)
        × ((input.status ≡ "approved") ⊎ (input.status ≡ "rejected"))
        × (env.uuid_of id_param ≡ some id)
        × In o w.db.review
        × (o.id ≡ id)
        × (r ≡ moderated w.now input.status o)
        × (r.status ≡ input.status)
        × (is_some o.user_id ≡ true)
        × (out.0 ≡ respond 200 (review_data r))
        × IsSettled input.status r w (decided w.now id input.status w.db) out.1.db)
      ⊎ ((out.0.status ≢ 200) × (out.1.db ≡ w.db))
      ⊎ ((input : ModerateReviewInput) × (id : String) × (o : Review) × (body ≡ decoded input true)
          × ((input.status ≡ "approved") ⊎ (input.status ≡ "rejected"))
          × (env.uuid_of id_param ≡ some id)
          × In o w.db.review
          × (o.id ≡ id)
          × (o.user_id ≡ none)
          × (out.0 ≡ server_error_response)
          × (out.1.db ≡ decided w.now id input.status w.db))

  moderate_world :
      (id_param status : String) (w : World)
      → (Reviews.moderate id_param status w).1
        ≡ record (tick w) { db = (Reviews.moderate id_param status w).1.db }
  unfolding Reviews.moderate
  moderate_world id_param status w = query-world (moderate_sql id_param status) w

  decide-ReviewModeration :
      (id_param : String) (body : Decoded ModerateReviewInput) (w : World)
      (input : ModerateReviewInput)
      → body ≡ decoded input true
      → (input.status ≡ "approved") ⊎ (input.status ≡ "rejected")
      → ReviewModeration id_param body w (decide_review id_param input.status w)
  unfolding decide_review attempt
  decide-ReviewModeration id_param body w input read status =
      elim (moderate-IsModeration id_param input.status w) [
        | inl (r, found, decision) ↦
            let (id, o, row, is, listed, its, was, kept, mine, set, (same, there), written) =
              decision in
            let (answer, tables) =
              settled input.status r w (decided w.now id input.status w.db) status in
            let behind : (Reviews.moderate id_param input.status w).1
                ≡ record (tick w) { db = decided w.now id input.status w.db } =
              moderate_world id_param input.status w
              ∙ ap (λ d. record (tick w) { db = d }) written in
            rw (found, behind)
              (inl (
                input,
                id,
                o,
                r,
                read,
                status,
                is,
                listed,
                its,
                rw (← same) was,
                rw (← same) set,
                ap (λ (x : Review). is_some x.user_id) (sym was) ∙ there,
                answer,
                tables,
              ))
        | inr (e, failed, left) ↦ elim left [
          | inl same ↦ rw failed (
              inr (
                inl (
                  refused-ne-200 e (Reviews.moderate id_param input.status w).1,
                  ap (λ w. w.db) (refused-db e (Reviews.moderate id_param input.status w).1) ∙ same,
                )))
          | inr (server, (id, o, r, is, listed, its, was, kept, mine, set, gone, written)) ↦
              rw (failed, server)
                (inr (
                  inr (
                    input,
                    id,
                    o,
                    read,
                    status,
                    is,
                    listed,
                    its,
                    ap (λ (x : Review). x.user_id) (sym was) ∙ gone,
                    refl,
                    written,
                  )))
        ]
      ]

  -- A moderation that is answered with a 200 had a status of approved or rejected, has written it to the
  -- rows of the id and shows one of them; a rejection queues nothing, an approval queues the recalculation
  -- of the ratings of the review's employer, unless the driver fails the INSERT of the task. With any other
  -- answer no table has changed, but for one case: if the author of the review has been purged, the decision
  -- is written, the answer is a 500 and nothing is queued.
  pub moderate_review_handler-ReviewModeration :
      (id_param : String) (body : Decoded ModerateReviewInput) (w : World)
      → ReviewModeration id_param body w (moderate_review_handler id_param body w)
  unfolding moderate_review_handler with_id decide_review
  moderate_review_handler-ReviewModeration id_param body w =
      let P : Response × World → Type 0 = ReviewModeration id_param body w in
      elim (Bool-cases (env.is_uuid id_param)) [
        | inr bad ↦ rw bad (inr (inl ((λ s. omega arith), refl)))
        | inl good ↦ rw good (
            read_json-cases P body _ w (λ e. inr (inl ((λ s. omega arith), refl)))
              λ input read.
                when_valid-cases P (validate_moderate_review_input input new)
                  (decide_review id_param input.status) w (inr (inl ((λ s. omega arith), refl)))
                  λ accepted.
                    decide-ReviewModeration id_param body w input read
                      (accepted_status input accepted))
      ]
