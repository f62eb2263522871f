-- ===== src/Data/Applications.antt =====
-- internal/data/applications.go: the methods of `ApplicationTrackerModel`.
pub mod Validation
use gradconnect_api.Common.{
  ℕ, String, Bool, true, false, not, ◌&&◌, ◌||◌, Option, none, some, List, [], ◌∷◌, ◌++◌, ◌==◌,
  select, find_first, update_where, any, contains, if◌then◌else◌, or_keep, or_keep_some,
}
use gradconnect_api.Store.{
  record_not_found, duplicate_application, failure, Result, ok, err, Env, Db, Sql, Exec, query,
  ◌>>=◌,
}
use gradconnect_api.Store.Content.{ApplicationTracker, Employer, OpportunityRow}
use gradconnect_api.Filters.{Filters, Metadata, sort_column}
use gradconnect_api.Data.Ids.{with_uuid}
use gradconnect_api.Data.Listing.{bind_key, by_id, by_number, list_by}
use gradconnect_api.Data.Applications.Validation.{
  CreateApplicationInput, UpdateApplicationInput, permitted_statuses,
}

-- `UNIQUE (user_id, opportunity_id)`
abbrev pub is_tracking : String → String → ApplicationTracker → Bool
is_tracking user_id opportunity_id t = t.user_id == user_id && t.opportunity_id == opportunity_id

abbrev pub has_targets : String → String → Db → Bool
has_targets user_id opportunity_id db =
    any (λ u. u.id == user_id) db.app_user && any (λ o. o.id == opportunity_id) db.opportunity

-- `WHERE id = $1 AND user_id = $2`
abbrev pub is_own : String → String → ApplicationTracker → Bool
is_own tracker_id user_id t = t.id == tracker_id && t.user_id == user_id

abbrev pub scan_tracker : Option ApplicationTracker → Result ApplicationTracker
scan_tracker none = err record_not_found
scan_tracker (some t) = ok t

module _ ⦃env : Env⦄ where
  abbrev pub new_tracker : ℕ → ℕ → String → String → CreateApplicationInput → ApplicationTracker
  new_tracker now n user_id opportunity_id input = record {
    id = env.uuid n;
    user_id = user_id;
    opportunity_id = opportunity_id;
    status = input.status;
    notes = input.notes;
    created_at = now;
    updated_at = now;
  }

  -- The unique index is checked as the row goes in, the foreign keys behind it. What is returned has the
  -- opportunity as the input spells it.
  unfoldable pub add_sql : String → CreateApplicationInput → Sql ApplicationTracker
  unfolding with_uuid any contains
  add_sql user_id input = with_uuid input.opportunity_id λ opportunity_id now n db.
      if not (contains permitted_statuses input.status)
      then (err failure, db)
      else if any (is_tracking user_id opportunity_id) db.application_track
      then (err duplicate_application, db)
      else if has_targets user_id opportunity_id db
      then (
        ok (record (new_tracker now n user_id opportunity_id input) {
          opportunity_id = input.opportunity_id;
        }),
        record db {
          application_track =
              db.application_track ++ new_tracker now n user_id opportunity_id input ∷ [];
        },
      )
      else (err record_not_found, db)

  -- `Add`
  unfoldable pub add : String → CreateApplicationInput → Exec ApplicationTracker
  unfolding add_sql query
  add user_id input = query (add_sql user_id input)

  unfoldable pub get_by_id_sql : String → String → Sql ApplicationTracker
  unfolding with_uuid find_first
  get_by_id_sql tracker_id user_id =
      with_uuid tracker_id
        λ id now n db. (scan_tracker (find_first (is_own id user_id) db.application_track), db)

  -- `GetByID`
  unfoldable pub get_by_id : String → String → Exec ApplicationTracker
  unfolding get_by_id_sql query
  get_by_id tracker_id user_id = query (get_by_id_sql tracker_id user_id)

  -- `SET status = $1, notes = $2`, and the trigger
  abbrev pub rewritten : ℕ → ApplicationTracker → ApplicationTracker → ApplicationTracker
  rewritten now current t = record t {
    status = current.status;
    notes = current.notes;
    updated_at = now;
  }

  unfoldable pub update_sql : String → String → ApplicationTracker → Sql ApplicationTracker
  unfolding with_uuid any contains update_where
  update_sql user_id tracker_id current = with_uuid tracker_id λ id now n db.
      if contains permitted_statuses current.status && any (is_own id user_id) db.application_track
      then (
        ok (record current { updated_at = now }),
        record db {
          application_track =
              update_where (is_own id user_id) (rewritten now current) db.application_track;
        },
      )
      else (err failure, db)

  abbrev pub merge_tracker : UpdateApplicationInput → ApplicationTracker → ApplicationTracker
  merge_tracker input current = record current {
    status = or_keep input.status current.status;
    notes = or_keep_some input.notes current.notes;
  }

  -- `Update`
  unfoldable pub update : String → String → UpdateApplicationInput → Exec ApplicationTracker
  unfolding get_by_id update_sql query
  update user_id tracker_id input = do
    current ← get_by_id tracker_id user_id
    query (update_sql user_id tracker_id (merge_tracker input current))

  unfoldable pub remove_sql : String → String → Sql (Unit {0})
  unfolding with_uuid any select
  remove_sql user_id tracker_id = with_uuid tracker_id λ id now n db.
      if any (is_own id user_id) db.application_track
      then (
        ok tt,
        record db {
          application_track = select (λ t. not (is_own id user_id t)) db.application_track;
        },
      )
      else (err record_not_found, db)

  -- `Remove`
  unfoldable pub remove : String → String → Exec (Unit {0})
  unfolding remove_sql query
  remove user_id tracker_id = query (remove_sql user_id tracker_id)

-- A row of the list: the tracker, its opportunity and the employer of that.
pub record ApplicationTrackerListItem : Type 0 where
  pub tracker : ApplicationTracker
  pub opportunity : OpportunityRow
  pub employer : Employer

abbrev pub item_key :
    String → Option (ApplicationTrackerListItem → ApplicationTrackerListItem → Bool)
item_key column =
    if column == "updated_at"
    then some (by_number (λ i. i.tracker.updated_at))
    else if column == "created_at"
    then some (by_number (λ i. i.tracker.created_at))
    else none

-- `INNER JOIN employer e ON e.id = o.employer_id`, of one opportunity
unfoldable pub join_employers :
    ApplicationTracker → OpportunityRow → List Employer → List ApplicationTrackerListItem
join_employers t o [] = []
join_employers t o (e ∷ es) =
    let rest = join_employers t o es in
    if e.id == o.employer_id
    then record { tracker = t; opportunity = o; employer = e } ∷ rest
    else rest

-- `INNER JOIN opportunity o ON o.id = apptk.opportunity_id`, of one tracker
unfoldable pub join_opportunities :
    ApplicationTracker → List Employer → List OpportunityRow → List ApplicationTrackerListItem
unfolding join_employers
join_opportunities t employers [] = []
join_opportunities t employers (o ∷ os) =
    let rest = join_opportunities t employers os in
    if o.id == t.opportunity_id then join_employers t o employers ++ rest else rest

unfoldable pub join_all :
    List Employer → List OpportunityRow → List ApplicationTracker → List ApplicationTrackerListItem
unfolding join_opportunities
join_all employers opportunities [] = []
join_all employers opportunities (t ∷ ts) =
    join_opportunities t employers opportunities ++ join_all employers opportunities ts

-- `WHERE apptk.user_id = $1 AND ($2 = '' OR apptk.status = $2::application_status_type)`
abbrev pub is_listed : String → String → ApplicationTracker → Bool
is_listed user_id status t = t.user_id == user_id && (status == "" || t.status == status)

unfoldable pub list_sql :
    String → String → Filters → Sql (List ApplicationTrackerListItem × Metadata)
unfolding select join_all list_by sort_column
list_sql user_id status filters now n db = (
  list_by (by_id (λ i. i.tracker.id)) (bind_key (sort_column filters) item_key) filters (
      join_all db.employer db.opportunity (select (is_listed user_id status) db.application_track)),
  db,
)

-- `List`
unfoldable pub list :
    ⦃env : Env⦄ → String → String → Filters → Exec (List ApplicationTrackerListItem × Metadata)
unfolding list_sql query
list user_id status filters = query (list_sql user_id status filters)
