-- ===== src/Data/Listing/Pages.antt =====
-- The pages of a listing, taken together, are the listing.
use mathlib.Core.List.{append_assoc, append-nil}
use gradconnect_api.Common.{
  ℕ, zero, suc, ◌+◌, ◌-◌, ◌*◌, ◌≤◌, ◌<◌, ◌≡◌, refl, sym, ap, ◌∙◌, Bool, true, false, List, [], ◌∷◌,
  ◌++◌, arith, length, inl, inr,
}
use gradconnect_api.Common.Int.{pos, ltbℤ, pos_part}
use gradconnect_api.Store.{ok}
use gradconnect_api.Filters.{validate_filters, Filters, Metadata, limit, offset, calculate_metadata}
use gradconnect_api.Filters.Laws.{calculate_metadata_lem, validated_numbers}
use mathlib.Core.List.{Perm}
use mathlib.Core.List.Perm
use gradconnect_api.Common.{if-cases, ◌⊎◌}
use gradconnect_api.Validator.{new, valid}
use gradconnect_api.Data.Listing.{
  insert_by, take, drop, page, order_by, count_over, with_metadata, listing,
}

module _ {A : Type 0} where
  take-append-drop : (n : ℕ) (xs : List A) → take n xs ++ drop n xs ≡ xs
  unfolding take drop
  take-append-drop zero xs = refl
  take-append-drop (suc n) [] = refl
  take-append-drop (suc n) (x ∷ xs) = ap (λ ys. x ∷ ys) (take-append-drop n xs)

  drop-nil : (n : ℕ) → drop {A = A} n [] ≡ []
  unfolding drop
  drop-nil zero = refl
  drop-nil (suc n) = refl

  take-nil : (n : ℕ) → take {A = A} n [] ≡ []
  unfolding take
  take-nil zero = refl
  take-nil (suc n) = refl

  drop-add : (m n : ℕ) (xs : List A) → drop (n + m) xs ≡ drop m (drop n xs)
  unfolding drop
  drop-add m zero xs = ap (λ k. drop k xs) (omega arith)
  drop-add m (suc n) [] = drop-nil (suc n + m) ∙ sym (drop-nil m)
  drop-add m (suc n) (x ∷ xs) =
      let e : suc n + m ≡ suc (n + m) = omega arith in rw e (drop-add m n xs)

  drop_all : (n : ℕ) (xs : List A) → length xs ≤ n → drop n xs ≡ []
  unfolding drop
  drop_all n [] h = drop-nil n
  drop_all zero (x ∷ xs) h = absurd (omega arith)
  drop_all (suc n) (x ∷ xs) h = drop_all n xs (omega arith)

  -- The first pages, one after the other; page k starts at offset (k - 1) * size.
  unfoldable pub pages : ℕ → ℕ → List A → List A
  pages zero size xs = []
  pages (suc n) size xs = pages n size xs ++ page size (n * size) xs

  pages-append-drop : (n size : ℕ) (xs : List A) → pages n size xs ++ drop (n * size) xs ≡ xs
  unfolding pages page
  pages-append-drop zero size xs = let e : 0 * size ≡ 0 = omega arith in rw (e, drop) refl
  pages-append-drop (suc n) size xs =
      let e : suc n * size ≡ n * size + size = grind arith in
      rw e (
        rw (drop-add size (n * size) xs) (
          append_assoc (pages n size xs) (take size (drop (n * size) xs))
            (drop size (drop (n * size) xs))
          ∙ ap (λ ys. pages n size xs ++ ys) (take-append-drop size (drop (n * size) xs))
          ∙ pages-append-drop n size xs))

  pages_all : (n size : ℕ) (xs : List A) → length xs ≤ n * size → pages n size xs ≡ xs
  pages_all n size xs h =
      sym (append-nil (pages n size xs))
      ∙ ap (λ ys. pages n size xs ++ ys) (sym (drop_all (n * size) xs h))
      ∙ pages-append-drop n size xs

  length-insert_by :
      (before : A → A → Bool) (x : A) (xs : List A)
      → length (insert_by before x xs) ≡ suc (length xs)
  unfolding insert_by
  length-insert_by before x [] = refl
  length-insert_by before x (y ∷ ys) = ground (arith, length-insert_by before x ys)

  length-order_by : (before : A → A → Bool) (xs : List A) → length (order_by before xs) ≡ length xs
  unfolding order_by
  length-order_by before [] = refl
  length-order_by before (x ∷ xs) =
      length-insert_by before x (order_by before xs) ∙ ap (λ n. suc n) (length-order_by before xs)

  insert_by-perm :
      (before : A → A → Bool) (x : A) (xs : List A) → Perm (insert_by before x xs) (x ∷ xs)
  unfolding insert_by
  insert_by-perm before x [] = Perm.refl (x ∷ [])
  insert_by-perm before x (y ∷ ys) =
      if-cases (λ zs. Perm zs (x ∷ y ∷ ys)) (before x y) (x ∷ y ∷ ys) (y ∷ insert_by before x ys)
        (λ e. Perm.refl (x ∷ y ∷ ys))
        (λ e. Perm.trans (Perm.cons y (insert_by-perm before x ys)) (Perm.swap x y ys))

  -- ORDER BY neither drops nor repeats a row.
  pub order_by-perm : (before : A → A → Bool) (xs : List A) → Perm (order_by before xs) xs
  unfolding order_by
  order_by-perm before [] = Perm.refl []
  order_by-perm before (x ∷ xs) =
      Perm.trans (insert_by-perm before x (order_by before xs))
        (Perm.cons x (order_by-perm before xs))

  -- What one page shows of the rows `sorted`, and what its metadata says.
  pub record IsPage (f : Filters) (sorted rows : List A) (m : Metadata) : Type 0 where
    pub shown :
        rows ≡ page (pos_part f.page_size) ((pos_part f.page - 1) * pos_part f.page_size) sorted
    pub counted :
        ((length sorted ≤ (pos_part f.page - 1) * pos_part f.page_size)
          × (rows ≡ [])
          × (m.total_records ≡ 0)
          × (m.current_page ≡ 0)
          × (m.last_page ≡ 0))
        ⊎ (((pos_part f.page - 1) * pos_part f.page_size < length sorted)
            × (m.total_records ≡ length sorted)
            × (m.current_page ≡ pos_part f.page)
            × (m.page_size ≡ pos_part f.page_size)
            × (m.first_page ≡ 1)
            × (pages m.last_page (pos_part f.page_size) sorted ≡ sorted)
            × ((m.last_page - 1) * pos_part f.page_size < length sorted))

  page_empty : (n k : ℕ) (xs : List A) → 0 < n → [] ≡ page n k xs → length xs ≤ k
  unfolding page take drop
  page_empty n k [] positive h = omega arith
  page_empty zero zero (x ∷ xs) positive h = absurd (omega arith)
  page_empty (suc n) zero (x ∷ xs) positive h = absurd (cc h)
  page_empty n (suc k) (x ∷ xs) positive h =
      let shorter : length xs ≤ k = page_empty n k xs positive h in omega arith

  page_nonempty :
      (n k : ℕ) (xs : List A) (r : A) (rs : List A) → r ∷ rs ≡ page n k xs → k < length xs
  unfolding page drop
  page_nonempty n k [] r rs h =
      let empty : take {A = A} n (drop {A = A} k []) ≡ [] = rw (drop-nil k) (take-nil n) in cc
  page_nonempty n zero (x ∷ xs) r rs h = omega arith
  page_nonempty n (suc k) (x ∷ xs) r rs h =
      let shorter : k < length xs = page_nonempty n k xs r rs h in omega arith

  page_counted :
      (f : Filters) (p s : ℕ) (rows all sorted : List A)
      → 0 < s
      → f.page ≡ pos p
      → f.page_size ≡ pos s
      → rows ≡ page s ((p - 1) * s) sorted
      → length sorted ≡ length all
      → (m : Metadata) × (with_metadata rows (calculate_metadata (count_over rows all) p s)
          ≡ ok (rows, m))
        × IsPage f sorted rows m
  unfolding count_over
  page_counted f p s [] all sorted hs hp hz shown same = (
    record { current_page = 0; page_size = 0; first_page = 0; last_page = 0; total_records = 0 },
    unfold calculate_metadata in refl,
    record {
      shown = rw (hp, hz) shown;
      counted =
          inl (rw (hp, hz) (page_empty s ((p - 1) * s) sorted hs shown), refl, refl, refl, refl);
    },
  )
  page_counted f p s (r ∷ rs) all sorted hs hp hz shown same =
      let some_row : (p - 1) * s < length sorted =
        page_nonempty s ((p - 1) * s) sorted r rs shown in
      let (m, e, current, total, sized, first, enough, least) =
        calculate_metadata_lem (length all) p s (omega arith) hs in
      (
        m,
        rw e refl,
        record {
          shown = rw (hp, hz) shown;
          counted = inr (
            rw (hp, hz) some_row,
            total ∙ sym same,
            rw hp current,
            rw hz sized,
            first,
            rw hz (pages_all m.last_page s sorted (omega arith)),
            rw (hz, same) least,
          );
        },
      )

  -- A page of validated filters is what LIMIT and OFFSET take of the ordered rows. If it starts before the
  -- last row ends, the metadata say its number and size and how many rows there are, the pages from the
  -- first to their last page are together all rows in that order, and their last page is not empty. A page
  -- past the end is empty, and its metadata are all 0.
  pub listing-IsPage :
      (before : A → A → Bool) (f : Filters) (all : List A)
      → valid (validate_filters f new) ≡ true
      → (rows : List A) × (m : Metadata) × (listing before f all ≡ ok (rows, m))
        × IsPage f (order_by before all) rows m
  unfolding listing limit
  listing-IsPage before f all h =
      let (hp, hs, skipped, size_pos) = validated_numbers f h in
      let sorted = order_by before all in
      let p = pos_part f.page in
      let s = pos_part f.page_size in
      let rows = page s ((p - 1) * s) sorted in
      let (m, e, is_page) =
        page_counted f p s rows all sorted size_pos hp hs refl (length-order_by before all) in
      let limited : ltbℤ f.page_size (pos 0) ≡ false = rw hs (ground arith) in
      let start : pos_part (offset f) ≡ (p - 1) * s = rw skipped refl in
      let forward : ltbℤ (offset f) (pos 0) ≡ false = rw skipped (ground arith) in
      (rows, m, rw (limited, forward, start) e, is_page)
