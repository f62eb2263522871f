-- ===== src/Data/Opportunities/Search.antt =====
-- internal/data/opportunities.go: `GetAll`.
use gradconnect_api.Common.{
  ℕ, ◌/◌, String, Bool, not, ◌&&◌, ◌||◌, Option, none, some, List, [], ◌∷◌, ◌==◌, leb, eqb, select,
  find_first, contains, if◌then◌else◌,
}
use gradconnect_api.Common.Int.{ℤ, pos, pos_part, neg_part}
use gradconnect_api.Common.Calendar.{zero_date}
use gradconnect_api.Store.{failure, err, Env, Sql, Exec, query}
use gradconnect_api.Store.Content.{OpportunityRow, Employer}
use gradconnect_api.Filters.{Filters, Metadata, sort_column}
use gradconnect_api.Data.Ids.{fits_int4}
use gradconnect_api.Data.Bookmarks.{day}
use gradconnect_api.Data.Listing.{bind_key, by_id, by_number, by_nullable, list_by}
use gradconnect_api.Data.Opportunities.Validation.{permitted_opportunity_types}
use gradconnect_api.Data.Opportunities.Shown.{
  Opportunity, not_open_yet, is_over, enriched, join_one,
}

-- `OpportunityFilters`; the zero date stands for no bound.
pub record OpportunityFilters : Type 0 where
  pub search : String
  pub kind : String
  pub status : String
  pub intake_year : ℤ
  pub industry : String
  pub location : String
  pub discipline : String
  pub employer_slug : String
  pub deadline_before : ℕ
  pub deadline_after : ℕ
  pub filters : Filters

abbrev pub eqbℤ : ℤ → ℤ → Bool
eqbℤ a b = eqb (pos_part a) (pos_part b) && eqb (neg_part a) (neg_part b)

-- `$10 = 'withdrawn' AND …`: the last conjunct of the WHERE.
unfoldable pub has_status : String → ℕ → OpportunityRow → Bool
has_status status today o =
    status == "all"
    || (status == "withdrawn" && not o.is_active)
    || (status == "upcoming" && o.is_active && not_open_yet today o.opens_at)
    || (status == "closed" && o.is_active && is_over today o.deadline)
    || (status == "open"
        && o.is_active
        && not (not_open_yet today o.opens_at)
        && not (is_over today o.deadline))
    || (status == "open_or_upcoming" && o.is_active && not (is_over today o.deadline))

-- `$8::date IS NULL OR o.deadline <= $8`, and `>= $9`: a NULL deadline is in no bound.
abbrev pub until : ℕ → Option ℕ → Bool
until bound none = eqb bound zero_date
until bound (some d) = eqb bound zero_date || leb d bound

abbrev pub from : ℕ → Option ℕ → Bool
from bound none = eqb bound zero_date
from bound (some d) = eqb bound zero_date || leb bound d

module _ ⦃env : Env⦄ where
  -- The search vector of a row is an unknown text of the row and its employer.
  unfoldable pub is_selected : OpportunityFilters → ℕ → Opportunity → Bool
  unfolding has_status contains
  is_selected input today o =
      (env.vector_search o.row o.employer.name o.employer.industry input.search
        || input.search == "")
      && (input.kind == "" || o.row.kind == input.kind)
      && (eqbℤ o.row.intake_year input.intake_year || eqbℤ input.intake_year (pos 0))
      && (o.employer.industry == input.industry || input.industry == "")
      && (o.employer.slug == input.employer_slug || input.employer_slug == "")
      && (env.ilike o.row.location input.location || input.location == "")
      && (input.discipline == "" || contains o.row.discipline_tags input.discipline)
      && until input.deadline_before o.row.deadline
      && from input.deadline_after o.row.deadline
      && has_status input.status today o.row

  unfoldable pub join_all : ℕ → List Employer → List OpportunityRow → List Opportunity
  unfolding find_first enriched
  join_all today employers [] = []
  join_all today employers (o ∷ os) =
      let rest = join_all today employers os in
      elim (join_one today employers o) [ none ↦ rest | some shown ↦ shown ∷ rest ]

  abbrev pub opportunity_column : String → Option (Opportunity → Opportunity → Bool)
  opportunity_column column =
      if column == "deadline"
      then some (by_nullable (λ o. o.row.deadline))
      else if column == "opens_at"
      then some (by_nullable (λ o. o.row.opens_at))
      else if column == "created_at"
      then some (by_number (λ o. o.row.created_at))
      else if column == "title"
      then some (λ a b. env.collates_before a.row.title b.row.title)
      else none

  -- A year outside of INTEGER is an error of its bind, a type outside of the enumeration one of its cast.
  unfoldable pub get_all_sql : OpportunityFilters → Sql (List Opportunity × Metadata)
  unfolding contains select is_selected join_all list_by sort_column
  get_all_sql input now n db =
      if fits_int4 input.intake_year
        && (input.kind == "" || contains permitted_opportunity_types input.kind)
      then (
        list_by (by_id (λ o. o.row.id)) (bind_key (sort_column input.filters) opportunity_column)
            input.filters
            (select (is_selected input (now / day))
              (join_all (now / day) db.employer db.opportunity)),
        db,
      )
      else (err failure, db)

  -- `GetAll`
  unfoldable pub get_all : OpportunityFilters → Exec (List Opportunity × Metadata)
  unfolding get_all_sql query
  get_all input = query (get_all_sql input)
