-- ===== src/Filters/Laws.antt =====
-- Validated filters are safe to run, and the pages that the metadata counts hold every row once
-- (internal/data/filters.go).
use gradconnect_api.Common.{
  ℕ, zero, suc, ◌+◌, ◌-◌, ◌*◌, ◌/◌, ◌≤◌, ◌<◌, String, ◌≡◌, refl, Bool, true, ◌&&◌, some, List, [],
  ◌∷◌, arith, eq_iff, contains,
}
use gradconnect_api.Common.Int.{pos, pos_part, ltbℤ, lebℤ, pos_of_positive, pos-sub, pos-mul}
use gradconnect_api.Validator.{new, valid, permitted_value}
use gradconnect_api.Validator.Laws.{valid-check}
use gradconnect_api.Filters.{
  Filters, Metadata, trim_dash, sort_column, sort_column_among, validate_filters, limit, offset,
  calculate_metadata,
}

sort_column_among_total :
    (sort : String) (safe : List String)
    → contains safe sort ≡ true
    → sort_column_among sort safe ≡ some (trim_dash sort)
unfolding contains sort_column_among
sort_column_among_total sort [] h = cc
sort_column_among_total sort (s ∷ rest) h =
    ground (arith, sort_column_among_total sort rest, eq_iff s sort, eq_iff sort s)

pub record IsRunnable (f : Filters) : Type 0 where
  pub column : sort_column f ≡ some (trim_dash f.sort)
  pub size : ℕ
  pub limited : limit f ≡ pos size
  pub size_pos : 0 < size
  pub size_small : size ≤ 100
  pub skip : ℕ
  pub skipped : offset f ≡ pos skip
  pub skip_small : skip ≤ 999999900

-- The five checks, as one conjunction.
abbrev checks : Filters → Bool
checks f =
    ltbℤ (pos 0) f.page
    && lebℤ f.page (pos 10000000)
    && ltbℤ (pos 0) f.page_size
    && lebℤ f.page_size (pos 100)
    && permitted_value f.sort f.sort_safe_list

valid-validate_filters : (f : Filters) → valid (validate_filters f new) ≡ checks f
unfolding validate_filters
valid-validate_filters f = simp valid-check (unfold valid in refl)

offset-pos :
    (f : Filters) (p s : ℕ)
    → f.page ≡ pos p
    → f.page_size ≡ pos s
    → 0 < p
    → offset f ≡ pos ((p - 1) * s)
unfolding offset
offset-pos f p s hp hs h = rw (hp, hs, pos-sub p 1 h, pos-mul (p - 1) s)

skip-le : (p s : ℕ) → p ≤ 10000000 → s ≤ 100 → (p - 1) * s ≤ 999999900
skip-le p s hp hs = grind arith

-- Filters that pass validation never panic on their sort column, ask for between 1 and 100 rows, and
-- skip a number of rows that is not negative and below 10^9.
pub validate_filters-IsRunnable :
    (f : Filters) → valid (validate_filters f new) ≡ true → IsRunnable f
unfolding permitted_value limit
validate_filters-IsRunnable f h =
    let c : checks f ≡ true = rw valid-validate_filters at h in
    let (ep, pp) = pos_of_positive f.page (ground arith) in
    let (es, ps) = pos_of_positive f.page_size (ground arith) in
    let p = pos_part f.page in
    let s = pos_part f.page_size in
    record {
      column = unfold sort_column in sort_column_among_total f.sort f.sort_safe_list (ground arith);
      size = s;
      limited = es;
      size_pos = ps;
      size_small = ground arith;
      skip = (p - 1) * s;
      skipped = offset-pos f p s ep es pp;
      skip_small = skip-le p s (ground arith) (ground arith);
    }

-- The page, the size and the offset of validated filters, as natural numbers.
pub validated_numbers :
    (f : Filters)
    → valid (validate_filters f new) ≡ true
    → (f.page ≡ pos (pos_part f.page))
      × (f.page_size ≡ pos (pos_part f.page_size))
      × (offset f ≡ pos ((pos_part f.page - 1) * pos_part f.page_size))
      × (0 < pos_part f.page_size)
validated_numbers f h =
    let c : checks f ≡ true = rw valid-validate_filters at h in
    let (ep, pp) = pos_of_positive f.page (unfold permitted_value in ground arith) in
    let (es, ps) = pos_of_positive f.page_size (unfold permitted_value in ground arith) in
    (ep, es, offset-pos f (pos_part f.page) (pos_part f.page_size) ep es pp, ps)

abbrev pub last_page_of : ℕ → ℕ → ℕ
last_page_of total size = (total + size - 1) / size

pages-hold : (t s : ℕ) → 0 < t → 0 < s → t ≤ last_page_of t s * s
pages-hold t s ht hs = grind arith

pages-least : (t s : ℕ) → 0 < t → 0 < s → (last_page_of t s - 1) * s < t
pages-least t s ht hs = grind arith

-- A query that counts at least one row gets metadata with the page asked for, and with the least
-- number of pages that hold every row.
pub calculate_metadata_lem :
    (total page size : ℕ)
    → 0 < total
    → 0 < size
    → (m : Metadata) × (calculate_metadata total page size ≡ some m)
      × (m.current_page ≡ page)
      × (m.total_records ≡ total)
      × (m.page_size ≡ size)
      × (m.first_page ≡ 1)
      × (total ≤ m.last_page * size)
      × ((m.last_page - 1) * size < total)
unfolding calculate_metadata
calculate_metadata_lem zero page size ht hs = absurd (omega arith)
calculate_metadata_lem (suc n) page size ht hs = (
  record {
    current_page = page;
    page_size = size;
    first_page = 1;
    last_page = last_page_of (suc n) size;
    total_records = suc n;
  },
  ground arith,
  refl,
  refl,
  refl,
  refl,
  pages-hold (suc n) size ht hs,
  pages-least (suc n) size ht hs,
)
