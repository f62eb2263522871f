-- ===== src/Worker/Cron/Ratings.antt =====
-- What the daily recalculation of the ratings leaves behind (internal/worker/cron.go).
use gradconnect_api.Common.{
  ℕ, zero, suc, ◌+◌, ◌*◌, ◌/◌, ◌≤◌, ◌<◌, arith, ne_of-eq-false, Option, none, some, ◌≢◌, sym,
  String, ◌≡◌, refl, ap, subst, ◌∙◌, ◌⊎◌, inl, inr, false, List, [], ◌∷◌, map, length, ◌==◌, eq_iff,
  Bool-cases, In, In-update_where, select, update_where,
}
use gradconnect_api.Store.{ok, Env, World, tick, query}
use gradconnect_api.Store.Content.{Employer, Review}
use gradconnect_api.Data.Employers.{average, sum_of, counts, rated}
use gradconnect_api.Worker.Cron.{
  rate_employer_sql, employer_ids_sql, rate_each, recalculate_all_employer_ratings,
}

-- The employer with the id has n approved reviews among the rows, whose difficulty ratings add up to d
-- and whose experience ratings to x.
pub data Approved (id : String) : List Review → ℕ → ℕ → ℕ → Type 0 where
  no_review : Approved id [] 0 0 0
  counted :
      {rows : List Review} {n d x : ℕ} (r : Review)
      → r.employer_id ≡ id
      → r.status ≡ "approved"
      → Approved id rows n d x
      → Approved id (r ∷ rows) (suc n) (r.difficulty_rating + d) (r.experience_rating + x)
  passed :
      {rows : List Review} {n d x : ℕ} (r : Review)
      → (r.employer_id ≢ id) ⊎ (r.status ≢ "approved")
      → Approved id rows n d x
      → Approved id (r ∷ rows) n d x

-- The mean of n numbers with the sum, in hundredths, rounded half up; there is none of no number.
abbrev pub IsMean : ℕ → ℕ → Option ℕ → Type 0
IsMean sum zero mean = mean ≡ none
IsMean sum (suc n) mean =
    (a : ℕ) × (mean ≡ some a)
    × (2 * suc n * a ≤ 200 * sum + suc n)
    × (200 * sum + suc n < 2 * suc n * (a + 1))

-- The employer shows how many approved reviews it has, and the means of their ratings.
abbrev pub IsRated : List Review → Employer → Type 0
IsRated reviews e =
    (n d x : ℕ) × Approved e.id reviews n d x
    × (e.review_count ≡ n)
    × IsMean d n e.avg_difficulty_rating
    × IsMean x n e.avg_experience_rating

average-IsMean : (sum n : ℕ) → IsMean sum n (average sum n)
unfolding average
average-IsMean sum zero = refl
average-IsMean sum (suc n) = ((200 * sum + suc n) / (2 * suc n), refl, grind arith, grind arith)

counts-Approved :
    (id : String) (reviews : List Review)
    → let approved = select (counts id) reviews in
      Approved id reviews
        (length approved)
        (sum_of (λ r. r.difficulty_rating) approved)
        (sum_of (λ r. r.experience_rating) approved)
unfolding select sum_of
counts-Approved id [] = no_review
counts-Approved id (r ∷ rs) =
    let rest = counts-Approved id rs in
    elim (Bool-cases (r.employer_id == id)) [
      | inr other ↦ rw other (passed r (inl (ne_of-eq-false r.employer_id id other)) rest)
      | inl own ↦ elim (Bool-cases (r.status == "approved")) [
        | inr waits ↦
            rw (own, waits) (passed r (inr (ne_of-eq-false r.status "approved" waits)) rest)
        | inl shown ↦
            rw (own, shown)
              (counted r ((eq_iff r.employer_id id).0 own) ((eq_iff r.status "approved").0 shown)
                rest)
      ]
    ]

rated-IsRated :
    (now : ℕ) (reviews : List Review) (e : Employer)
    → IsRated reviews (record (rated (select (counts e.id) reviews) e) { updated_at = now })
rated-IsRated now reviews e = (
  _,
  _,
  _,
  counts-Approved e.id reviews,
  refl,
  average-IsMean _ (length (select (counts e.id) reviews)),
  average-IsMean _ (length (select (counts e.id) reviews)),
)

In-map_intro : {A B : Type 0} (f : A → B) (xs : List A) (a : A) → In a xs → In (f a) (map f xs)
In-map_intro f [] a i = absurd i
In-map_intro f (x ∷ xs) a (inl e) = inl (ap f e)
In-map_intro f (x ∷ xs) a (inr i) = inr (In-map_intro f xs a i)

length-map : {A B : Type 0} (f : A → B) (xs : List A) → length (map f xs) ≡ length xs
length-map f [] = refl
length-map f (x ∷ xs) = ap suc (length-map f xs)

rate_one :
    (now : ℕ) (id : String) (ids : List String) (reviews : List Review) (employers : List Employer)
    → ((e : Employer) → In e employers → In e.id (id ∷ ids) ⊎ IsRated reviews e)
    → (e : Employer)
    → In e (
        update_where
          (λ e. e.id == id)
          (λ e. record (rated (select (counts id) reviews) e) { updated_at = now })
          employers)
    → In e.id ids ⊎ IsRated reviews e
rate_one now id ids reviews employers h e i =
    let f : Employer → Employer =
      λ e. record (rated (select (counts id) reviews) e) { updated_at = now } in
    let (a, j, is) = In-update_where (λ e. e.id == id) f employers e i in
    elim (Bool-cases (a.id == id)) [
      | inl own ↦
          let same : a.id ≡ id = (eq_iff a.id id).0 own in
          inr (
            subst (λ x. IsRated reviews x) (sym (rw own at is))
              (rw (← same) (rated-IsRated now reviews a)))
      | inr other ↦ elim (h a j) [
        | inr done ↦ rw (is, other) (inr done)
        | inl (inl here) ↦ absurd (cc (other, (eq_iff a.id id).1 here))
        | inl (inr later) ↦ rw (is, other) (inl later)
      ]
    ]

module _ ⦃env : Env⦄ (up : (n : ℕ) → env.fails n ≡ false) where
  rate_each-IsRated :
      (ids : List String) (w : World)
      → ((e : Employer) → In e w.db.employer → In e.id ids ⊎ IsRated w.db.review e)
      → ((rate_each ids w).0 ≡ length ids)
        × ((rate_each ids w).1.db.review ≡ w.db.review)
        × ((e : Employer) → In e (rate_each ids w).1.db.employer → IsRated w.db.review e)
  unfolding rate_each
  rate_each-IsRated [] w h =
      (refl, refl, λ e i. elim (h e i) [ inl none_left ↦ absurd none_left | inr done ↦ done ])
  rate_each-IsRated (id ∷ ids) w h =
      let next = (query (rate_employer_sql id) w).1 in
      let rest = rate_each-IsRated ids next (
        unfold query in
        unfold rate_employer_sql in
        rw (up w.queries) (λ e i. rate_one w.now id ids w.db.review w.db.employer h e i)) in
      let (n, kept, done) = rest in
      let answered : (query (rate_employer_sql id) w).0 ≡ ok tt =
        unfold query in unfold rate_employer_sql in rw (up w.queries) refl in
      let same : next.db.review ≡ w.db.review =
        unfold query in unfold rate_employer_sql in rw (up w.queries) refl in
      (rw answered (ap suc n), kept ∙ same, λ e i. subst (λ rs. IsRated rs e) same (done e i))

  -- If no statement fails, the daily recalculation counts every employer, changes no review, and leaves
  -- each employer with the number of its approved reviews and the means of their two ratings, in hundredths
  -- rounded half up, or no mean if there is no such review.
  pub recalculate_all_employer_ratings-IsRated :
      (w : World)
      → ((recalculate_all_employer_ratings w).0 ≡ length w.db.employer)
        × ((recalculate_all_employer_ratings w).1.db.review ≡ w.db.review)
        × ((e : Employer)
            → In e (recalculate_all_employer_ratings w).1.db.employer
            → IsRated w.db.review e)
  unfolding recalculate_all_employer_ratings employer_ids_sql query
  recalculate_all_employer_ratings-IsRated w =
      let ids = map (λ e. e.id) w.db.employer in
      let (all, kept, done) =
        rate_each-IsRated ids (tick w) (λ e i. inl (In-map_intro (λ e. e.id) w.db.employer e i)) in
      rw (up w.queries) (all ∙ length-map (λ e. e.id) w.db.employer, kept, done)
