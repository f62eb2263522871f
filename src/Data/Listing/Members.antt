-- ===== src/Data/Listing/Members.antt =====
-- Every row that a listing shows is one of the rows that the query selected.
use gradconnect_api.Common.{
  ℕ, zero, suc, ◌≡◌, subst, Bool, ◌||◌, Option, none, some, List, [], ◌∷◌, arith, In, Bool-cases,
  inl, inr,
}
use gradconnect_api.Common.Int.{pos, ltbℤ, pos_part}
use gradconnect_api.Store.{ok}
use gradconnect_api.Filters.{Filters, Metadata, limit, offset, calculate_metadata}
use gradconnect_api.Data.Listing.{
  take, drop, page, insert_by, order_by, count_over, with_metadata, listing, list_by,
}

module _ {A : Type 0} where
  In-take : (n : ℕ) (xs : List A) (a : A) → In a (take n xs) → In a xs
  unfolding take
  In-take zero xs a i = absurd i
  In-take (suc n) [] a i = absurd i
  In-take (suc n) (x ∷ xs) a (inl e) = inl e
  In-take (suc n) (x ∷ xs) a (inr i) = inr (In-take n xs a i)

  In-drop : (n : ℕ) (xs : List A) (a : A) → In a (drop n xs) → In a xs
  unfolding drop
  In-drop zero xs a i = i
  In-drop (suc n) [] a i = absurd i
  In-drop (suc n) (x ∷ xs) a i = inr (In-drop n xs a i)

  In-insert_by :
      (before : A → A → Bool) (x : A) (xs : List A) (a : A)
      → In a (insert_by before x xs)
      → In a (x ∷ xs)
  unfolding insert_by
  In-insert_by before x [] a i = i
  In-insert_by before x (y ∷ ys) a i = elim (Bool-cases (before x y)) [
    | inl e ↦ rw e at i
    | inr e ↦ elim (rw e at i) [
      | inl here ↦ inr (inl here)
      | inr later ↦ elim (In-insert_by before x ys a later) [
        | inl new ↦ inl new
        | inr old ↦ inr (inr old)
      ]
    ]
  ]

  In-order_by : (before : A → A → Bool) (xs : List A) (a : A) → In a (order_by before xs) → In a xs
  unfolding order_by
  In-order_by before [] a i = i
  In-order_by before (x ∷ xs) a i = elim (In-insert_by before x (order_by before xs) a i) [
    | inl here ↦ inl here
    | inr later ↦ inr (In-order_by before xs a later)
  ]

  with_metadata-rows :
      (all rows : List A) (o : Option Metadata) (m : Metadata)
      → with_metadata all o ≡ ok (rows, m)
      → rows ≡ all
  with_metadata-rows all rows none m h = cc
  with_metadata-rows all rows (some k) m h = ground arith

  In-listing :
      (before : A → A → Bool) (f : Filters) (all rows : List A) (m : Metadata) (a : A)
      → listing before f all ≡ ok (rows, m)
      → In a rows
      → In a all
  unfolding listing page
  In-listing before f all rows m a h i =
      elim (Bool-cases (ltbℤ (limit f) (pos 0) || ltbℤ (offset f) (pos 0))) [
        | inl bad ↦ absurd (cc (rw bad at h))
        | inr good ↦
            let sorted = order_by before all in
            let shown = take (pos_part (limit f)) (drop (pos_part (offset f)) sorted) in
            let same : rows ≡ shown =
              with_metadata-rows shown rows
                (calculate_metadata (count_over shown all) (pos_part f.page) (pos_part f.page_size))
                m (rw good at h) in
            In-order_by before all a (
              In-drop (pos_part (offset f)) sorted a (
                In-take (pos_part (limit f)) (drop (pos_part (offset f)) sorted) a
                  (subst (λ l. In a l) same i)))
      ]

  pub In-list_by :
      (tie : A → A → Bool) (column : Option (A → A → Bool)) (f : Filters) (all rows : List A)
      (m : Metadata) (a : A)
      → list_by tie column f all ≡ ok (rows, m)
      → In a rows
      → In a all
  unfolding list_by
  In-list_by tie none f all rows m a h i = absurd (cc)
  In-list_by tie (some column) f all rows m a h i = In-listing _ f all rows m a h i
