-- ===== src/Data/Opportunities.antt =====
-- internal/data/opportunities.go: the methods of `OpportunityModel`, and `Date.Value` of types.go.
-- CURRENT_DATE is the day of now(), for a session in UTC.
pub mod Validation
pub mod Shown
pub mod Search
pub mod Status
pub mod Upsert
use Prim.Native.String.{count}
use gradconnect_api.Common.{
  ℕ, ◌/◌, String, Bool, true, false, not, ◌&&◌, ◌||◌, Option, none, some, List, [], ◌∷◌, ◌++◌, ◌==◌,
  leb, ltb, eqb, is_some, select, find_first, update_where, any, contains, if◌then◌else◌, or_keep,
  or_keep_some,
}
use gradconnect_api.Common.Int.{ℤ, pos, pos_part, neg_part, sub_ℕ}
use gradconnect_api.Common.Calendar.{zero_date}
use gradconnect_api.Store.{
  record_not_found, duplicate_opportunity_slug, failure, Result, ok, err, Env, Db, Sql, Exec, query,
  ◌>>=◌,
}
use gradconnect_api.Store.Content.{OpportunityRow, Employer}
use gradconnect_api.Filters.{Filters, Metadata, sort_column}
use gradconnect_api.Data.Ids.{with_uuid, fits_int4}
use gradconnect_api.Data.Bookmarks.{day}
use gradconnect_api.Data.Listing.{bind_key, by_id, by_number, by_nullable, list_by}
use gradconnect_api.Data.Opportunities.Validation.{
  CreateOpportunityInput, UpdateOpportunityInput, permitted_opportunity_types,
}
pub use gradconnect_api.Data.Opportunities.Shown.{EmployerStub, Opportunity}
pub use gradconnect_api.Data.Opportunities.Search.{OpportunityFilters}
unfoldable pub use gradconnect_api.Data.Opportunities.Shown.{
  not_open_yet, is_over, status_of, days_to, stub_of, enriched, join_one, scan_opportunity,
  join_found,
}
unfoldable pub use gradconnect_api.Data.Opportunities.Search.{
  eqbℤ, has_status, is_selected, get_all_sql, get_all,
}

-- `Date.Value`: the zero date is NULL.
abbrev pub date_value : Option ℕ → Option ℕ
date_value none = none
date_value (some d) = if eqb d zero_date then none else some d

abbrev pub fits_url : Option String → Bool
fits_url none = true
fits_url (some s) = leb (count s) 512

-- The column types of opportunity.
unfoldable pub fits_opportunity : OpportunityRow → Bool
unfolding contains
fits_opportunity o =
    leb (count o.title) 255
    && leb (count o.slug) 255
    && contains permitted_opportunity_types o.kind
    && fits_int4 o.intake_year
    && leb (count o.location) 255
    && leb (count o.application_url) 512
    && fits_url o.source_url

-- `UNIQUE (employer_id, title, intake_year)`
abbrev pub same_programme : OpportunityRow → OpportunityRow → Bool
same_programme a o =
    o.employer_id == a.employer_id && o.title == a.title && eqbℤ o.intake_year a.intake_year

-- Another row than that of an id stands in the way of one of the unique constraints.
abbrev pub collides : String → OpportunityRow → OpportunityRow → Bool
collides id a o = not (o.id == id) && (o.slug == a.slug || same_programme a o)

module _ ⦃env : Env⦄ where
  unfoldable pub get_by_id_sql : String → Sql Opportunity
  unfolding with_uuid find_first enriched
  get_by_id_sql opportunity_id = with_uuid opportunity_id λ id now n db.
      (join_found (now / day) db.employer (find_first (λ o. o.id == id) db.opportunity), db)

  -- `GetByID`
  unfoldable pub get_by_id : String → Exec Opportunity
  unfolding get_by_id_sql query
  get_by_id id = query (get_by_id_sql id)

  unfoldable pub get_by_slug_sql : String → Sql Opportunity
  unfolding find_first enriched
  get_by_slug_sql slug now n db =
      (join_found (now / day) db.employer (find_first (λ o. o.slug == slug) db.opportunity), db)

  -- `GetBySlug`
  unfoldable pub get_by_slug : String → Exec Opportunity
  unfolding get_by_slug_sql query
  get_by_slug slug = query (get_by_slug_sql slug)

  -- The row of an input; `Insert` leaves is_active to its default, `Upsert` writes it.
  abbrev pub new_opportunity : ℕ → ℕ → String → Bool → CreateOpportunityInput → OpportunityRow
  new_opportunity now n employer_id is_active input = record {
    id = env.uuid n;
    employer_id = employer_id;
    title = input.title;
    slug = input.slug;
    kind = input.kind;
    intake_year = input.intake_year;
    description = input.description;
    requirements = input.requirements;
    location = input.location;
    discipline_tags = input.discipline_tags;
    opens_at = date_value input.opens_at;
    deadline = date_value input.deadline;
    application_url = input.application_url;
    is_active = is_active;
    source_url = input.source_url;
    created_at = now;
    updated_at = now;
  }

  -- The trigger for the search vector reads the employer: without one the vector is NULL, which its column
  -- does not allow, before the foreign key is checked.
  unfoldable pub insert_sql : CreateOpportunityInput → Sql String
  unfolding with_uuid fits_opportunity any
  insert_sql input = with_uuid input.employer_id λ employer_id now n db.
      let o = new_opportunity now n employer_id true input in
      if not (fits_opportunity o && any (λ e. e.id == employer_id) db.employer)
      then (err failure, db)
      else if any (collides o.id o) db.opportunity
      then (err duplicate_opportunity_slug, db)
      else (ok o.id, record db { opportunity = db.opportunity ++ o ∷ [] })

  -- `Insert`
  unfoldable pub insert : CreateOpportunityInput → Exec Opportunity
  unfolding insert_sql get_by_id query
  insert input = do id ← query (insert_sql input); get_by_id id

  -- The employer of an input is not among the fields that are merged.
  abbrev pub merge_opportunity : UpdateOpportunityInput → OpportunityRow → OpportunityRow
  merge_opportunity input current = record current {
    title = or_keep input.title current.title;
    slug = or_keep input.slug current.slug;
    kind = or_keep input.kind current.kind;
    intake_year = or_keep input.intake_year current.intake_year;
    description = or_keep input.description current.description;
    requirements = or_keep_some input.requirements current.requirements;
    location = or_keep input.location current.location;
    discipline_tags = or_keep input.discipline_tags current.discipline_tags;
    opens_at = or_keep_some input.opens_at current.opens_at;
    deadline = or_keep_some input.deadline current.deadline;
    application_url = or_keep input.application_url current.application_url;
    source_url = or_keep_some input.source_url current.source_url;
    is_active = or_keep input.is_active current.is_active;
  }

  abbrev pub saved_opportunity : ℕ → OpportunityRow → OpportunityRow → OpportunityRow
  saved_opportunity now current o = record current {
    id = o.id;
    employer_id = o.employer_id;
    opens_at = date_value current.opens_at;
    deadline = date_value current.deadline;
    created_at = o.created_at;
    updated_at = now;
  }

  unfoldable pub update_sql : String → OpportunityRow → Sql (Unit {0})
  unfolding with_uuid fits_opportunity any update_where
  update_sql opportunity_id current = with_uuid opportunity_id λ id now n db.
      if not (any (λ o. o.id == id) db.opportunity)
      then (err record_not_found, db)
      else if not (fits_opportunity current)
      then (err failure, db)
      else if any (collides id current) db.opportunity
      then (err duplicate_opportunity_slug, db)
      else (
        ok tt,
        record db {
          opportunity =
              update_where (λ o. o.id == id) (saved_opportunity now current) db.opportunity;
        },
      )

  -- `Update`
  unfoldable pub update : String → UpdateOpportunityInput → Exec Opportunity
  unfolding get_by_id update_sql query
  update id input = do
    current ← get_by_id id
    done ← query (update_sql id (merge_opportunity input current.row))
    get_by_id id

  -- Trackers and bookmarks of the opportunity go with it (ON DELETE CASCADE).
  unfoldable pub delete_sql : String → Sql (Unit {0})
  unfolding with_uuid any select
  delete_sql opportunity_id = with_uuid opportunity_id λ id now n db.
      if any (λ o. o.id == id) db.opportunity
      then (
        ok tt,
        record db {
          opportunity = select (λ o. not (o.id == id)) db.opportunity;
          application_track = select (λ t. not (t.opportunity_id == id)) db.application_track;
          bookmark = select (λ b. not (b.opportunity_id == id)) db.bookmark;
        },
      )
      else (err record_not_found, db)

  -- `Delete`
  unfoldable pub delete : String → Exec (Unit {0})
  unfolding delete_sql query
  delete id = query (delete_sql id)
