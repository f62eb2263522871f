-- ===== src/App/Opportunities/Laws.antt =====
-- What everybody may see of the opportunities (internal/app/opportunities.go).
use gradconnect_api.Common.{
  ℕ, ◌+◌, ◌/◌, String, ◌≡◌, refl, ap, ◌⊎◌, inl, inr, Bool, true, false, ◌&&◌, ◌||◌, Option, none,
  some, List, [], ◌∷◌, ◌==◌, arith, eq_iff, contains, if-cases, Bool-cases, Option-cases, In,
  In-select, select, find_first,
}
use gradconnect_api.Common.Int.{ℤ, pos}
use gradconnect_api.Common.Decimal.{parse_int}
use gradconnect_api.Common.Calendar.{parse_date}
use gradconnect_api.Validator.{Validator, new, valid, check, ◌▸◌, permitted_value}
use gradconnect_api.Validator.Laws.{valid-check, valid-add_error}
use gradconnect_api.Filters.{Filters, Metadata, validate_filters, sort_column}
use gradconnect_api.Store.{ok, Env, World}
use gradconnect_api.Store.Content.{Employer, OpportunityRow}
use gradconnect_api.Store.Transactions.{query-ok}
use gradconnect_api.Data.Ids.{fits_int4}
use gradconnect_api.Data.Bookmarks.{day}
use gradconnect_api.Data.Listing.{bind_key, by_id}
use gradconnect_api.Data.Listing.Members.{In-list_by}
use gradconnect_api.Data.Opportunities
use gradconnect_api.Data.Opportunities.Search
use gradconnect_api.Data.Opportunities.Search.{until, from, eqbℤ}
use gradconnect_api.Data.Opportunities.{
  Opportunity, OpportunityFilters, status_of, enriched, has_status, is_selected, get_all_sql,
}
use gradconnect_api.Data.Opportunities.Validation.{permitted_opportunity_types}
use gradconnect_api.Data.Opportunities.Status.{has_status-public}
use gradconnect_api.App.Auth.Steps.{when_valid-cases}
use gradconnect_api.App.Http.{
  attempt, attempt-cases, respond, server_error, Response, opportunities_page,
}
use gradconnect_api.App.Queries.{
  Query, get, max_int64, read_int, read_date, read_filters, read_string, int_or, date_or,
}
use gradconnect_api.App.Opportunities.{
  list_opportunities_handler, list_page, public_allowed, read_opportunity_filters,
}

int_or-valid :
    (i : Option ℤ) (key : String) (d : ℤ) (v : Validator)
    → valid (int_or i key d v).1 ≡ true
    → valid v ≡ true
int_or-valid none key d v h =
    absurd (cc (h, valid-add_error key "must be an integer value" v.errors))
int_or-valid (some i) key d v h = h

read_int-valid :
    (qs : Query) (key : String) (d : ℤ) (v : Validator)
    → valid (read_int qs key d v).1 ≡ true
    → valid v ≡ true
unfolding read_int
read_int-valid qs key d v =
    if-cases (λ (out : ℤ × Validator). valid out.1 ≡ true → valid v ≡ true) (get qs key == "")
      (d, v) (int_or (parse_int max_int64 (max_int64 + 1) (get qs key)) key d v) (λ _ h. h)
      (λ _ h. int_or-valid (parse_int max_int64 (max_int64 + 1) (get qs key)) key d v h)

date_or-valid :
    (i : Option ℕ) (key : String) (d : ℕ) (v : Validator)
    → valid (date_or i key d v).1 ≡ true
    → valid v ≡ true
date_or-valid none key d v h =
    absurd (cc (h, valid-add_error key "invalid date format, expected YYYY-MM-DD" v.errors))
date_or-valid (some i) key d v h = h

read_date-valid :
    (qs : Query) (key : String) (d : ℕ) (v : Validator)
    → valid (read_date qs key d v).1 ≡ true
    → valid v ≡ true
unfolding read_date
read_date-valid qs key d v =
    if-cases (λ (out : ℕ × Validator). valid out.1 ≡ true → valid v ≡ true) (get qs key == "")
      (d, v) (date_or (parse_date (get qs key)) key d v) (λ _ h. h)
      (λ _ h. date_or-valid (parse_date (get qs key)) key d v h)

validate_filters-valid :
    (f : Filters) (v : Validator) → valid (v ▸ validate_filters f) ≡ true → valid v ≡ true
unfolding validate_filters
validate_filters-valid f v h = ground (arith, (simp valid-check at h))

-- The readers never make a validator valid again.
read_opportunity_filters-valid :
    (qs : Query) (status slug : String) (size : ℤ) (sort : String) (v : Validator)
    → valid (read_opportunity_filters qs status slug size sort v).1 ≡ true
    → valid v ≡ true
unfolding read_opportunity_filters read_filters
read_opportunity_filters-valid qs status slug size sort v h = read_int-valid qs "intake_year" _ v (
    read_date-valid qs "deadline_before" _ _ (
      read_date-valid qs "deadline_after" _ _
        (read_int-valid qs "page" _ _ (read_int-valid qs "page_size" _ _ h))))

permitted_status :
    (status message : String)
    → valid (new ▸ check (permitted_value status public_allowed) "status" message) ≡ true
    → (status ≡ "open") ⊎ ((status ≡ "upcoming") ⊎ (status ≡ "open_or_upcoming"))
unfolding permitted_value contains
permitted_status status message h = ground (
  arith,
  (rw (valid-check (permitted_value status public_allowed) "status" message new) at h),
  eq_iff "open" status,
  eq_iff "upcoming" status,
  eq_iff "open_or_upcoming" status,
)

and_right : (a b : Bool) → (a && b) ≡ true → b ≡ true
and_right true b h = h
and_right false b h = absurd cc

abbrev opportunities_of : Response → List Opportunity
opportunities_of response = elim response.body [ opportunities_page rows m ↦ rows | _ ↦ [] ]

module _ ⦃env : Env⦄ where
  In-join_all :
      (today : ℕ) (employers : List Employer) (rows : List OpportunityRow) (o : Opportunity)
      → In o (Search.join_all today employers rows)
      → o.status ≡ status_of today o.row
  unfolding Search.join_all find_first enriched
  In-join_all today employers [] o i = absurd i
  In-join_all today employers (r ∷ rs) o i =
      elim (Option-cases (find_first (λ (e : Employer). e.id == r.employer_id) employers)) [
        | inl gone ↦ In-join_all today employers rs o (rw (Search.join_all, gone) at i)
        | inr (e, found) ↦ elim (rw (Search.join_all, found) at i) [
          | inl here ↦ rw here refl
          | inr later ↦ In-join_all today employers rs o later
        ]
      ]

  is_selected-has_status :
      (input : OpportunityFilters) (today : ℕ) (o : Opportunity)
      → is_selected input today o ≡ true
      → has_status input.status today o.row ≡ true
  unfolding is_selected
  is_selected-has_status input today o h =
      and_right
        ((env.vector_search o.row o.employer.name o.employer.industry input.search
            || input.search == "")
          && (input.kind == "" || o.row.kind == input.kind)
          && (eqbℤ o.row.intake_year input.intake_year || eqbℤ input.intake_year (pos 0))
          && (o.employer.industry == input.industry || input.industry == "")
          && (o.employer.slug == input.employer_slug || input.employer_slug == "")
          && (env.ilike o.row.location input.location || input.location == "")
          && (input.discipline == "" || contains o.row.discipline_tags input.discipline)
          && until input.deadline_before o.row.deadline
          && from input.deadline_after o.row.deadline)
        (has_status input.status today o.row) h

  get_all-selected :
      (input : OpportunityFilters) (w : World) (rows : List Opportunity) (m : Metadata)
      (o : Opportunity)
      → (Opportunities.get_all input w).0 ≡ ok (rows, m)
      → In o rows
      → (o.status ≡ status_of (w.now / day) o.row)
        × (has_status input.status (w.now / day) o.row ≡ true)
  unfolding Opportunities.get_all get_all_sql is_selected
  get_all-selected input w rows m o h i =
      let (ran, _) = query-ok (get_all_sql input) w h in
      let day_of = w.now / day in
      let known =
        fits_int4 input.intake_year
        && (input.kind == "" || contains permitted_opportunity_types input.kind) in
      elim (Bool-cases known) [
        | inr bad ↦ absurd (cc (rw bad at ran))
        | inl good ↦
            let listed =
              In-list_by (by_id (λ o. o.row.id))
                (bind_key (sort_column input.filters) Search.opportunity_column) input.filters
                (select (is_selected input day_of)
                  (Search.join_all day_of w.db.employer w.db.opportunity))
                rows m o (rw good at ran) i in
            let (joined, selected) = In-select (is_selected input day_of) _ o listed in
            (
              In-join_all day_of w.db.employer w.db.opportunity o joined,
              is_selected-has_status input day_of o selected,
            )
      ]

  -- An opportunity on the list that everybody may ask for is shown as open or as upcoming.
  pub list_opportunities_handler-public :
      (qs : Query) (w : World) (rows : List Opportunity) (m : Metadata) (o : Opportunity)
      → (list_opportunities_handler qs w).0 ≡ respond 200 (opportunities_page rows m)
      → In o rows
      → (o.status ≡ "open") ⊎ (o.status ≡ "upcoming")
  unfolding list_opportunities_handler list_page read_opportunity_filters
  list_opportunities_handler-public qs w rows m o h i =
      let status = read_string qs "status" "open_or_upcoming" in
      let message : String = "must be one of: open, upcoming, open_or_upcoming" in
      let start = new ▸ check (permitted_value status public_allowed) "status" message in
      let slug = read_string qs "employer_slug" "" in
      let read = read_opportunity_filters qs status slug (pos 20) "deadline" start in
      let P : Response × World → Type 0 = λ out.
        out.0 ≡ respond 200 (opportunities_page rows m)
        → (o.status ≡ "open") ⊎ (o.status ≡ "upcoming") in
      when_valid-cases P (read.1 ▸ validate_filters read.0.filters)
        (attempt (Opportunities.get_all read.0) server_error
          (λ found w. (respond 200 (opportunities_page found.0 found.1), w)))
        w (λ bad. let clash : 422 ≡ 200 = ap (λ r. r.status) bad in absurd (omega arith))
        (λ accepted.
          let which = permitted_status status message (
            read_opportunity_filters-valid qs status slug (pos 20) "deadline" start
              (validate_filters-valid read.0.filters read.1 accepted)) in
          attempt-cases P (Opportunities.get_all read.0) server_error
            (λ found w. (respond 200 (opportunities_page found.0 found.1), w)) w
            (λ e failed bad. let clash : 500 ≡ 200 = ap (λ r. r.status) bad in absurd (omega arith))
            (λ found got shown.
              let same : found.0 ≡ rows = ap opportunities_of shown in
              let (is, selected) = get_all-selected read.0 w found.0 found.1 o got (rw same i) in
              rw is (has_status-public (w.now / day) o.row status which selected)))
        h
