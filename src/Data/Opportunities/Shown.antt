-- ===== src/Data/Opportunities/Shown.antt =====
-- internal/data/opportunities.go: an opportunity as selectOpportunityColumns shows it.
use gradconnect_api.Common.{
  ℕ, String, Bool, false, not, Option, none, some, List, ◌==◌, ltb, find_first, if◌then◌else◌,
}
use gradconnect_api.Common.Int.{ℤ, sub_ℕ}
use gradconnect_api.Store.{record_not_found, Result, ok, err}
use gradconnect_api.Store.Content.{OpportunityRow, Employer}

-- `EmployerStub`
pub record EmployerStub : Type 0 where
  pub id : String
  pub name : String
  pub slug : String
  pub logo_url : Option String
  pub industry : String

-- `Opportunity`: a row with what a SELECT computes.
pub record Opportunity : Type 0 where
  pub row : OpportunityRow
  pub status : String
  pub days_remaining : Option ℤ
  pub employer : EmployerStub

-- `opens_at IS NOT NULL AND CURRENT_DATE < opens_at`, `deadline IS NOT NULL AND CURRENT_DATE > deadline`
abbrev pub not_open_yet : ℕ → Option ℕ → Bool
not_open_yet today none = false
not_open_yet today (some d) = ltb today d

abbrev pub is_over : ℕ → Option ℕ → Bool
is_over today none = false
is_over today (some d) = ltb d today

-- The CASE of selectOpportunityColumns.
unfoldable pub status_of : ℕ → OpportunityRow → String
status_of today o =
    if not o.is_active
    then "withdrawn"
    else if not_open_yet today o.opens_at
    then "upcoming"
    else if is_over today o.deadline
    then "closed"
    else "open"

abbrev pub days_to : ℕ → Option ℕ → Option ℤ
days_to today none = none
days_to today (some d) = some (sub_ℕ d today)

abbrev pub stub_of : Employer → EmployerStub
stub_of e = record {
  id = e.id;
  name = e.name;
  slug = e.slug;
  logo_url = e.logo_url;
  industry = e.industry;
}

-- `scanOpportunity` of the row of a join
unfoldable pub enriched : ℕ → OpportunityRow → Employer → Opportunity
unfolding status_of
enriched today o e = record {
  row = o;
  status = status_of today o;
  days_remaining = days_to today o.deadline;
  employer = stub_of e;
}

-- The join of one row.
abbrev pub join_one : ℕ → List Employer → OpportunityRow → Option Opportunity
join_one today employers o = elim (find_first (λ (e : Employer). e.id == o.employer_id) employers) [
  | none ↦ none
  | some e ↦ some (enriched today o e)
]

abbrev pub scan_opportunity : Option Opportunity → Result Opportunity
scan_opportunity none = err record_not_found
scan_opportunity (some o) = ok o

abbrev pub join_found : ℕ → List Employer → Option OpportunityRow → Result Opportunity
join_found today employers none = err record_not_found
join_found today employers (some o) = scan_opportunity (join_one today employers o)
