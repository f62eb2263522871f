-- ===== src/App/Reviews/Edits.antt =====
-- What an edit of a review writes (internal/app/reviews.go, `updateReviewHandler`).
use gradconnect_api.Common.{
  String, ◌≡◌, ◌≢◌, refl, sym, ap, subst, eq_refl, ◌∙◌, ◌⊎◌, inl, inr, true, false, some, List,
  ◌==◌, eq_iff, arith, Bool-cases, In, In-update_where, In-update_where_intro, update_where,
}
use gradconnect_api.Validator.{valid, new}
use gradconnect_api.Store.{Env, World}
use gradconnect_api.Store.Content.{Review}
use gradconnect_api.Data.Reviews
use gradconnect_api.Data.Reviews.{is_own_review, is_author, edited_review, merge_review}
use gradconnect_api.Data.Reviews.Effects.{update-ok, update-err, author_is}
use gradconnect_api.Data.Reviews.Validation.{UpdateReviewInput, validate_update_review_input}
use gradconnect_api.App.Http.{
  Response, respond, review_data, Decoded, decoded, read_json-cases, attempt-cases,
  not_found_or_error, Principal, context_user,
}
use gradconnect_api.App.Auth.Steps.{when_valid-cases}
use gradconnect_api.App.Reviews.{edit_review, update_review_handler}
use gradconnect_api.App.Reviews.Laws.{refused-ne-200, refused-db}

-- The row `r` is `a` after an edit of its author that shows `m`: it has the contents of `m`, waits for
-- moderation again, and is about the same employer.
abbrev pub IsRevised : String → Review → Review → Review → Type 0
IsRevised user_id m a r =
    (a.user_id ≡ some user_id)
    × (r.programme_name ≡ m.programme_name)
    × (r.application_year ≡ m.application_year)
    × (r.outcome ≡ m.outcome)
    × (r.stage_breakdown ≡ m.stage_breakdown)
    × (r.difficulty_rating ≡ m.difficulty_rating)
    × (r.experience_rating ≡ m.experience_rating)
    × (r.tips ≡ m.tips)
    × (r.degree_discipline ≡ m.degree_discipline)
    × (r.university ≡ m.university)
    × (r.user_id ≡ a.user_id)
    × (r.id ≡ a.id)
    × (r.employer_id ≡ a.employer_id)
    × (r.created_at ≡ a.created_at)
    × (r.status ≡ "pending")

own-true :
    (id user_id : String) (a : Review)
    → a.id ≡ id
    → a.user_id ≡ some user_id
    → is_own_review id user_id a ≡ true
own-true id user_id a is author = rw (is, author, eq_refl id, eq_refl user_id) refl

own-cases :
    (id user_id : String) (a : Review)
    → ((a.id ≡ id) × (a.user_id ≡ some user_id))
      ⊎ ((is_own_review id user_id a ≡ false) × ¬ ((a.id ≡ id) × (a.user_id ≡ some user_id)))
own-cases id user_id a = elim (Bool-cases (is_own_review id user_id a)) [
  | inl own ↦
      let mine : (a.id == id) ≡ true = ground arith in
      let author : is_author user_id a.user_id ≡ true = ground arith in
      inl ((eq_iff a.id id).0 mine, author_is user_id a.user_id author)
  | inr other ↦ inr (other, λ both. cc (other, own-true id user_id a both.0 both.1))
]

-- Every row behind the edit is a row from before: revised if it is the author's and has the id, and the
-- same if not; and every row from before is behind it, revised or the same in that way.
abbrev pub OnlyOwn : String → String → Review → List Review → List Review → Type 0
OnlyOwn id user_id m before after =
    ((r : Review)
      → In r after
      → (a : Review) × In a before
        × (((a.id ≡ id) × IsRevised user_id m a r)
            ⊎ ((¬ ((a.id ≡ id) × (a.user_id ≡ some user_id))) × (r ≡ a))))
    × ((a : Review)
        → In a before
        → a.id ≡ id
        → a.user_id ≡ some user_id
        → (r : Review) × In r after × IsRevised user_id m a r)
    × ((a : Review) → In a before → ¬ ((a.id ≡ id) × (a.user_id ≡ some user_id)) → In a after)

rewritten-OnlyOwn :
    (id user_id : String) (m : Review) (f : Review → Review) (reviews : List Review)
    → ((a : Review) → a.user_id ≡ some user_id → IsRevised user_id m a (f a))
    → OnlyOwn id user_id m reviews (update_where (is_own_review id user_id) f reviews)
rewritten-OnlyOwn id user_id m f reviews revised = (
  λ r i.
      let (a, j, e) = In-update_where (is_own_review id user_id) f reviews r i in
      elim (own-cases id user_id a) [
        | inl (is, author) ↦
            let same : r ≡ f a = rw (own-true id user_id a is author) at e in
            (a, j, inl (is, subst (λ x. IsRevised user_id m a x) (sym same) (revised a author)))
        | inr (other, not_both) ↦ (a, j, inr (not_both, rw other at e))
      ],
  λ a i is author. (
    f a,
    rw (own-true id user_id a is author) at
        (In-update_where_intro (is_own_review id user_id) f reviews a i),
    revised a author,
  ),
  λ a i not_both. elim (own-cases id user_id a) [
    | inl both ↦ absurd (not_both both)
    | inr (other, _) ↦ rw other at (In-update_where_intro (is_own_review id user_id) f reviews a i)
  ],
)

module _ ⦃env : Env⦄ where
  -- The outcome of an edit of the review with the id in the path.
  abbrev pub ReviewEdit :
      Principal → String → Decoded UpdateReviewInput → World → Response × World → Type 0
  ReviewEdit p id_param body w out =
      ((input : UpdateReviewInput) × (r current : Review) × (id : String) × (body
          ≡ decoded input true)
        × (valid (validate_update_review_input w.year input new) ≡ true)
        × (env.uuid_of id_param ≡ some id)
        × In current w.db.review
        × (current.id ≡ id)
        × (current.user_id ≡ some (context_user p).id)
        × (out.0 ≡ respond 200 (review_data r))
        × (r ≡ record (merge_review input current) { updated_at = w.now })
        × (r.status ≡ "pending")
        × OnlyOwn id (context_user p).id r w.db.review out.1.db.review
        × (out.1.db ≡ record w.db { review = out.1.db.review }))
      ⊎ ((out.0.status ≢ 200) × (out.1.db ≡ w.db))

  edit-ReviewEdit :
      (p : Principal) (id_param : String) (body : Decoded UpdateReviewInput) (w : World)
      (input : UpdateReviewInput)
      → body ≡ decoded input true
      → valid (validate_update_review_input w.year input new) ≡ true
      → ReviewEdit p id_param body w (edit_review (context_user p).id id_param input w)
  unfolding edit_review
  edit-ReviewEdit p id_param body w input read accepted =
      let user_id = (context_user p).id in
      let m = Reviews.update user_id id_param input in
      attempt-cases (ReviewEdit p id_param body w) m not_found_or_error
        (λ review w. (respond 200 (review_data review), w)) w
        (λ e failed. inr (
          refused-ne-200 e (m w).1,
          ap (λ w. w.db) (refused-db e (m w).1) ∙ update-err user_id id_param input w failed,
        ))
        (λ r done.
          let (current, (id, is, there, mine), author, (id', is', shown, written)) =
            update-ok user_id id_param input w r done in
          let same : id ≡ id' = cc in
          let merged = merge_review input current in
          inl (
            input,
            r,
            current,
            id,
            read,
            accepted,
            is,
            there,
            mine,
            author,
            refl,
            shown,
            rw shown refl,
            rw (written, same, shown)
                (rewritten-OnlyOwn id' user_id (record merged { updated_at = w.now })
                  (edited_review w.now merged) w.db.review
                  (λ a author. (
                    author, refl, refl, refl, refl, refl, refl, refl, refl, refl, refl, refl, refl,
                    refl, refl,
                  ))),
            rw written refl,
          ))

  -- An edit is answered with a 200 only for an acceptable input and to the author of the review with the id
  -- in the path; the answer shows that review with the fields given and the status pending. Then each row
  -- of that author with the id is behind it with the contents shown, its author, employer and creation time,
  -- waiting for moderation again; every other row, and every other table, is as before. Any other answer leaves all tables unchanged.
  pub update_review_handler-ReviewEdit :
      (p : Principal) (id_param : String) (body : Decoded UpdateReviewInput) (w : World)
      → ReviewEdit p id_param body w (update_review_handler p id_param body w)
  unfolding update_review_handler
  update_review_handler-ReviewEdit p id_param body w =
      let P : Response × World → Type 0 = ReviewEdit p id_param body w in
      elim (Bool-cases (env.is_uuid id_param)) [
        | inr bad ↦ rw bad (inr ((λ s. omega arith), refl))
        | inl good ↦ rw good (
            read_json-cases P body _ w (λ e. inr ((λ s. omega arith), refl))
              λ input read.
                when_valid-cases P (validate_update_review_input w.year input new)
                  (edit_review (context_user p).id id_param input) w
                  (inr ((λ s. omega arith), refl))
                  λ accepted. edit-ReviewEdit p id_param body w input read accepted)
      ]
