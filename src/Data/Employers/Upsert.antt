-- ===== src/Data/Employers/Upsert.antt =====
-- internal/data/employers.go: `Upsert`.
use gradconnect_api.Common.{
  ℕ, suc, Option, none, some, [], ◌∷◌, ◌++◌, ◌==◌, find_first, update_where, if◌then◌else◌,
}
use gradconnect_api.Store.{failure, Result, ok, err, Env, Db, Sql, Exec, query}
use gradconnect_api.Store.Content.{Employer}
use gradconnect_api.Data.Employers.Validation.{CreateEmployerInput}
use gradconnect_api.Data.Employers.{new_employer, fits_employer}

module _ ⦃env : Env⦄ where
  -- What a second upload of an employer refreshes.
  abbrev pub refreshed : ℕ → CreateEmployerInput → Employer → Employer
  refreshed now input e = record e {
    name = input.name;
    industry = input.industry;
    size = input.size;
    hq_location = input.hq_location;
    offices = input.offices;
    logo_url = input.logo_url;
    overview = input.overview;
    culture = input.culture;
    website = input.website;
    social_links = input.social_links;
    version = suc e.version;
    updated_at = now;
  }

  abbrev pub upsert_into : ℕ → ℕ → CreateEmployerInput → Option Employer → Db → Result Employer × Db
  upsert_into now n input none db = (
    ok (new_employer now n input),
    record db { employer = db.employer ++ new_employer now n input ∷ [] },
  )
  upsert_into now n input (some old) db = (
    ok (refreshed now input old),
    record db {
      employer = update_where (λ e. e.slug == input.slug) (refreshed now input) db.employer;
    },
  )

  unfoldable pub upsert_sql : CreateEmployerInput → Sql Employer
  unfolding fits_employer find_first update_where
  upsert_sql input now n db =
      if fits_employer (new_employer now n input)
      then upsert_into now n input (find_first (λ e. e.slug == input.slug) db.employer) db
      else (err failure, db)

  -- `Upsert`
  unfoldable pub upsert : CreateEmployerInput → Exec Employer
  unfolding upsert_sql query
  upsert input = query (upsert_sql input)
