-- ===== src/Data/Bookmarks.antt =====
-- internal/data/bookmarks.go: the methods of `BookmarkModel`.
pub mod Reminders
use gradconnect_api.Common.{
  ℕ, ◌-◌, ◌*◌, ◌/◌, String, Bool, true, not, ◌&&◌, Option, none, some, List, [], ◌∷◌, ◌++◌, ◌==◌,
  ltb, select, any, if◌then◌else◌,
}
use gradconnect_api.Store.{record_not_found, duplicate_bookmark, ok, err, Env, Db, Sql, Exec, query}
use gradconnect_api.Store.Content.{BookmarkRow, Employer, OpportunityRow}
use gradconnect_api.Filters.{Filters, Metadata, sort_column}
use gradconnect_api.Data.Ids.{with_uuid}
use gradconnect_api.Data.Listing.{bind_key, by_id, by_number, by_nullable, list_by}

-- `UNIQUE (user_id, opportunity_id)`
abbrev pub is_marking : String → String → BookmarkRow → Bool
is_marking user_id opportunity_id b = b.user_id == user_id && b.opportunity_id == opportunity_id

abbrev pub has_targets : String → String → Db → Bool
has_targets user_id opportunity_id db =
    any (λ u. u.id == user_id) db.app_user && any (λ o. o.id == opportunity_id) db.opportunity

-- `WHERE id = $1 AND user_id = $2`
abbrev pub is_own : String → String → BookmarkRow → Bool
is_own bookmark_id user_id b = b.id == bookmark_id && b.user_id == user_id

module _ ⦃env : Env⦄ where
  abbrev pub new_bookmark : ℕ → ℕ → String → String → BookmarkRow
  new_bookmark now n user_id opportunity_id = record {
    id = env.uuid n;
    user_id = user_id;
    opportunity_id = opportunity_id;
    created_at = now;
  }

  -- What `Create` returns has an id and a time, and no opportunity.
  unfoldable pub create_sql : String → String → Sql BookmarkRow
  unfolding with_uuid any
  create_sql user_id opportunity = with_uuid opportunity λ opportunity_id now n db.
      if any (is_marking user_id opportunity_id) db.bookmark
      then (err duplicate_bookmark, db)
      else if has_targets user_id opportunity_id db
      then (
        ok (new_bookmark now n user_id opportunity_id),
        record db { bookmark = db.bookmark ++ new_bookmark now n user_id opportunity_id ∷ [] },
      )
      else (err record_not_found, db)

  -- `Create`
  unfoldable pub create : String → String → Exec BookmarkRow
  unfolding create_sql query
  create user_id opportunity_id = query (create_sql user_id opportunity_id)

  unfoldable pub delete_sql : String → String → Sql (Unit {0})
  unfolding with_uuid any select
  delete_sql bookmark_id user_id = with_uuid bookmark_id λ id now n db.
      if any (is_own id user_id) db.bookmark
      then (ok tt, record db { bookmark = select (λ b. not (is_own id user_id b)) db.bookmark })
      else (err record_not_found, db)

  -- `Delete`
  unfoldable pub delete : String → String → Exec (Unit {0})
  unfolding delete_sql query
  delete bookmark_id user_id = query (delete_sql bookmark_id user_id)

abbrev pub day : ℕ
day = 86400000000000

-- `OpportunityStub` with what is derived from the deadline: the whole days left, at least 0, and whether
-- its midnight is still to come.
pub record OpportunityStub : Type 0 where
  pub opportunity : OpportunityRow
  pub employer : Employer
  pub days_remaining : Option ℕ
  pub is_active : Bool

pub record Bookmark : Type 0 where
  pub row : BookmarkRow
  pub stub : OpportunityStub

-- `int(opp.Deadline.Sub(now).Hours() / 24)`: -1 day and less are below 0, less than a day is 0.
abbrev pub days_left : ℕ → ℕ → ℕ
days_left now deadline = (deadline * day - now) / day

unfoldable pub stub_of : ℕ → OpportunityRow → Employer → OpportunityStub
stub_of now o e = elim o.deadline [
  | none ↦ record { opportunity = o; employer = e; days_remaining = none; is_active = true }
  | some d ↦ record {
    opportunity = o;
    employer = e;
    days_remaining = some (days_left now d);
    is_active = ltb now (d * day);
  }
]

-- The joins of one bookmark.
unfoldable pub join_employers : ℕ → BookmarkRow → OpportunityRow → List Employer → List Bookmark
unfolding stub_of
join_employers now b o [] = []
join_employers now b o (e ∷ es) =
    let rest = join_employers now b o es in
    if e.id == o.employer_id then record { row = b; stub = stub_of now o e } ∷ rest else rest

unfoldable pub join_opportunities :
    ℕ → BookmarkRow → List Employer → List OpportunityRow → List Bookmark
unfolding join_employers
join_opportunities now b employers [] = []
join_opportunities now b employers (o ∷ os) =
    let rest = join_opportunities now b employers os in
    if o.id == b.opportunity_id then join_employers now b o employers ++ rest else rest

unfoldable pub join_all : ℕ → List Employer → List OpportunityRow → List BookmarkRow → List Bookmark
unfolding join_opportunities
join_all now employers opportunities [] = []
join_all now employers opportunities (b ∷ bs) =
    join_opportunities now b employers opportunities ++ join_all now employers opportunities bs

abbrev pub bookmark_key : String → Option (Bookmark → Bookmark → Bool)
bookmark_key column =
    if column == "created_at"
    then some (by_number (λ b. b.row.created_at))
    else if column == "deadline"
    then some (by_nullable (λ b. b.stub.opportunity.deadline))
    else none

unfoldable pub get_all_for_user_sql : String → Filters → Sql (List Bookmark × Metadata)
unfolding select join_all list_by sort_column
get_all_for_user_sql user_id filters now n db = (
  list_by (by_id (λ b. b.row.id)) (bind_key (sort_column filters) bookmark_key) filters
      (join_all now db.employer db.opportunity (select (λ b. b.user_id == user_id) db.bookmark)),
  db,
)

-- `GetAllForUser`
unfoldable pub get_all_for_user : ⦃env : Env⦄ → String → Filters → Exec (List Bookmark × Metadata)
unfolding get_all_for_user_sql query
get_all_for_user user_id filters = query (get_all_for_user_sql user_id filters)
