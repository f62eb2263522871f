-- ===== src/Data/Employers.antt =====
-- internal/data/employers.go: the methods of `EmployerModel`, and normalizeJSONArray of utils.go.
pub mod Validation
pub mod Ratings
pub mod Upsert
use Prim.Native.String.{count}
use gradconnect_api.Common.{
  ℕ, zero, suc, ◌+◌, ◌*◌, ◌/◌, String, Bool, true, false, not, ◌&&◌, ◌||◌, Option, none, some, List,
  [], ◌∷◌, ◌++◌, ◌==◌, ◌+++◌, leb, eqb, length, select, find_first, update_where, any,
  if◌then◌else◌, or_keep, or_keep_some,
}
use gradconnect_api.Store.{
  record_not_found, edit_conflict, duplicate_employer_slug, failure, Result, ok, err, Env, Db, Sql,
  Exec, query, ◌>>=◌,
}
use gradconnect_api.Store.Content.{Employer, Review}
use gradconnect_api.Filters.{Filters, Metadata, sort_column}
use gradconnect_api.Data.Ids.{with_uuid, fits_opt}
use gradconnect_api.Data.Listing.{bind_key, by_number, list_by}
use gradconnect_api.Data.Employers.Validation.{CreateEmployerInput, UpdateEmployerInput}
unfoldable pub use gradconnect_api.Data.Employers.Ratings.{
  average, sum_of, counts, rated, recalculate_ratings_sql, recalculate_ratings,
}

-- `normalizeJSONArray`
abbrev pub normalize_json_array : String → String
normalize_json_array raw = if raw == "" || raw == "null" then "[]" else raw

abbrev pub fits_varchar : ℕ → Option String → Bool
fits_varchar most none = true
fits_varchar most (some s) = leb (count s) most

-- The column types of employer.
unfoldable pub fits_employer : Employer → Bool
fits_employer e =
    leb (count e.name) 255
    && leb (count e.slug) 255
    && leb (count e.industry) 100
    && fits_varchar 50 e.size
    && fits_opt e.hq_location
    && fits_varchar 512 e.logo_url
    && fits_varchar 512 e.website

module _ ⦃env : Env⦄ where
  -- The columns that the INSERT leaves out have their defaults: is_verified is among them.
  abbrev pub new_employer : ℕ → ℕ → CreateEmployerInput → Employer
  new_employer now n input = record {
    id = env.uuid n;
    name = input.name;
    slug = input.slug;
    industry = input.industry;
    size = input.size;
    hq_location = input.hq_location;
    offices = input.offices;
    logo_url = input.logo_url;
    overview = input.overview;
    culture = input.culture;
    website = input.website;
    social_links = input.social_links;
    is_verified = false;
    avg_difficulty_rating = none;
    avg_experience_rating = none;
    review_count = 0;
    version = 1;
    created_at = now;
    updated_at = now;
  }

  unfoldable pub insert_sql : CreateEmployerInput → Sql Employer
  unfolding fits_employer any
  insert_sql input now n db =
      let created = new_employer now n input in
      if not (fits_employer created)
      then (err failure, db)
      else if any (λ e. e.slug == input.slug) db.employer
      then (err duplicate_employer_slug, db)
      else (ok created, record db { employer = db.employer ++ created ∷ [] })

  -- `Insert`
  unfoldable pub insert : CreateEmployerInput → Exec Employer
  unfolding insert_sql query
  insert input = query (insert_sql input)

-- `rows.Scan`, and the JSON lists normalized
abbrev pub scan_employer : Option Employer → Result Employer
scan_employer none = err record_not_found
scan_employer (some e) = ok (record e {
  offices = normalize_json_array e.offices;
  social_links = normalize_json_array e.social_links;
})

abbrev pub raw_or_keep : String → String → String
raw_or_keep raw old = if raw == "" then old else raw

abbrev pub merge_employer : UpdateEmployerInput → Employer → Employer
merge_employer input current = record current {
  name = or_keep input.name current.name;
  slug = or_keep input.slug current.slug;
  industry = or_keep input.industry current.industry;
  size = or_keep_some input.size current.size;
  hq_location = or_keep_some input.hq_location current.hq_location;
  offices = raw_or_keep input.offices current.offices;
  logo_url = or_keep_some input.logo_url current.logo_url;
  overview = or_keep_some input.overview current.overview;
  culture = or_keep_some input.culture current.culture;
  website = or_keep_some input.website current.website;
  social_links = raw_or_keep input.social_links current.social_links;
  is_verified = or_keep input.is_verified current.is_verified;
}

-- The UPDATE leaves the ratings, the id and the creation time of the row.
abbrev pub saved_employer : ℕ → Employer → Employer → Employer
saved_employer now current e = record current {
  id = e.id;
  avg_difficulty_rating = e.avg_difficulty_rating;
  avg_experience_rating = e.avg_experience_rating;
  review_count = e.review_count;
  version = suc e.version;
  created_at = e.created_at;
  updated_at = now;
}

-- `WHERE id = $13 AND version = $14`
abbrev pub same_version : String → ℕ → Employer → Bool
same_version id version e = e.id == id && eqb e.version version

module _ ⦃env : Env⦄ where
  unfoldable pub get_by_id_sql : String → Sql Employer
  unfolding with_uuid find_first
  get_by_id_sql employer_id =
      with_uuid employer_id
        λ id now n db. (scan_employer (find_first (λ e. e.id == id) db.employer), db)

  -- `GetByID`
  unfoldable pub get_by_id : String → Exec Employer
  unfolding get_by_id_sql query
  get_by_id id = query (get_by_id_sql id)

  unfoldable pub get_by_slug_sql : String → Sql Employer
  unfolding find_first
  get_by_slug_sql slug now n db = (scan_employer (find_first (λ e. e.slug == slug) db.employer), db)

  -- `GetBySlug`
  unfoldable pub get_by_slug : String → Exec Employer
  unfolding get_by_slug_sql query
  get_by_slug slug = query (get_by_slug_sql slug)

  unfoldable pub update_sql : String → Employer → Sql Employer
  unfolding with_uuid fits_employer any update_where
  update_sql employer_id current = with_uuid employer_id λ id now n db.
      if not (any (same_version id current.version) db.employer)
      then (err edit_conflict, db)
      else if not (fits_employer current)
      then (err failure, db)
      else if any (λ e. e.slug == current.slug && not (e.id == id)) db.employer
      then (err duplicate_employer_slug, db)
      else (
        ok (record current { version = suc current.version; updated_at = now }),
        record db {
          employer =
              update_where (same_version id current.version) (saved_employer now current)
                db.employer;
        },
      )

  -- `Update`
  unfoldable pub update : String → UpdateEmployerInput → Exec Employer
  unfolding get_by_id update_sql query
  update id input = do current ← get_by_id id; query (update_sql id (merge_employer input current))

  -- A review or an opportunity of the employer keeps its row (ON DELETE RESTRICT).
  unfoldable pub delete_sql : String → Sql (Unit {0})
  unfolding with_uuid any select
  delete_sql employer_id = with_uuid employer_id λ id now n db.
      if not (any (λ e. e.id == id) db.employer)
      then (err record_not_found, db)
      else if any (λ r. r.employer_id == id) db.review
          || any (λ o. o.employer_id == id) db.opportunity
          || any (λ a. a.employer_id == id) db.assessment_profile
      then (err failure, db)
      else (ok tt, record db { employer = select (λ e. not (e.id == id)) db.employer })

  -- `Delete`
  unfoldable pub delete : String → Exec (Unit {0})
  unfolding delete_sql query
  delete id = query (delete_sql id)

  abbrev pub employer_column : String → Option (Employer → Employer → Bool)
  employer_column column =
      if column == "name"
      then some (λ a b. env.collates_before a.name b.name)
      else if column == "created_at"
      then some (by_number (λ e. e.created_at))
      else none

  abbrev pub text_or_empty : Option String → String
  text_or_empty none = ""
  text_or_empty (some s) = s

  -- The text that the search looks at.
  abbrev pub search_text : Employer → String
  search_text e =
      e.name
      +++ " "
      +++ text_or_empty e.overview
      +++ " "
      +++ e.industry
      +++ " "
      +++ text_or_empty e.hq_location

  abbrev pub is_as_verified : Option Bool → Bool → Bool
  is_as_verified none b = true
  is_as_verified (some true) b = b
  is_as_verified (some false) b = not b

  abbrev pub is_listed : String → String → Option Bool → Employer → Bool
  is_listed search industry is_verified e =
      (env.text_search (search_text e) search || search == "")
      && (e.industry == industry || industry == "")
      && is_as_verified is_verified e.is_verified

  unfoldable pub get_all_sql :
      String → String → Option Bool → Filters → Sql (List Employer × Metadata)
  unfolding select list_by sort_column
  get_all_sql search industry is_verified filters now n db = (
    list_by (λ a b. env.collates_before a.name b.name)
        (bind_key (sort_column filters) employer_column) filters
        (select (is_listed search industry is_verified) db.employer),
    db,
  )

  -- `GetAll`
  unfoldable pub get_all : String → String → Option Bool → Filters → Exec (List Employer × Metadata)
  unfolding get_all_sql query
  get_all search industry is_verified filters =
      query (get_all_sql search industry is_verified filters)
