-- ===== src/Data/Opportunities/Upsert.antt =====
-- internal/data/opportunities.go: `Upsert`.
use gradconnect_api.Common.{
  ℕ, String, not, ◌&&◌, Option, none, some, [], ◌∷◌, ◌++◌, ◌==◌, find_first, update_where, any,
  if◌then◌else◌,
}
use gradconnect_api.Store.{
  duplicate_opportunity_slug, failure, Result, ok, err, Env, Db, Sql, Exec, query, ◌>>=◌,
}
use gradconnect_api.Store.Content.{OpportunityRow}
use gradconnect_api.Data.Ids.{with_uuid}
use gradconnect_api.Data.Opportunities.Validation.{CreateOpportunityInput}
use gradconnect_api.Data.Opportunities.{
  Opportunity, date_value, fits_opportunity, same_programme, new_opportunity, get_by_id,
}

module _ ⦃env : Env⦄ where
  -- What a second upload of a programme refreshes.
  abbrev pub refreshed : ℕ → CreateOpportunityInput → OpportunityRow → OpportunityRow
  refreshed now input o = record o {
    slug = input.slug;
    kind = input.kind;
    description = input.description;
    requirements = input.requirements;
    location = input.location;
    discipline_tags = input.discipline_tags;
    opens_at = date_value input.opens_at;
    deadline = date_value input.deadline;
    application_url = input.application_url;
    is_active = input.is_active;
    source_url = input.source_url;
    updated_at = now;
  }

  abbrev pub upsert_into :
      ℕ → CreateOpportunityInput → OpportunityRow → Option OpportunityRow → Db → Result String × Db
  upsert_into now input new none db =
      if any (λ o. o.slug == new.slug) db.opportunity
      then (err duplicate_opportunity_slug, db)
      else (ok new.id, record db { opportunity = db.opportunity ++ new ∷ [] })
  upsert_into now input new (some old) db =
      if any (λ o. o.slug == new.slug && not (o.id == old.id)) db.opportunity
      then (err duplicate_opportunity_slug, db)
      else (
        ok old.id,
        record db {
          opportunity = update_where (λ o. o.id == old.id) (refreshed now input) db.opportunity;
        },
      )

  unfoldable pub upsert_sql : CreateOpportunityInput → Sql String
  unfolding with_uuid fits_opportunity any find_first update_where
  upsert_sql input = with_uuid input.employer_id λ employer_id now n db.
      let new = new_opportunity now n employer_id input.is_active input in
      if fits_opportunity new && any (λ e. e.id == employer_id) db.employer
      then upsert_into now input new (find_first (same_programme new) db.opportunity) db
      else (err failure, db)

  -- `Upsert`
  unfoldable pub upsert : CreateOpportunityInput → Exec Opportunity
  unfolding upsert_sql get_by_id query
  upsert input = do id ← query (upsert_sql input); get_by_id id
