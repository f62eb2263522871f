-- ===== src/Data/Assessments.antt =====
-- internal/data/assessments.go: the methods of `AssessmentModel`.
pub mod Validation
use Prim.Native.String.{count}
use gradconnect_api.Common.{
  ℕ, suc, String, Bool, true, false, not, ◌&&◌, ◌||◌, Option, none, some, List, [], ◌∷◌, ◌++◌, ◌==◌,
  eqb, leb, select, find_first, update_where, any, if◌then◌else◌, or_keep, or_keep_some,
}
use gradconnect_api.Common.Int.{ℤ}
use gradconnect_api.Store.{
  record_not_found, edit_conflict, failure, Result, ok, err, Env, Db, Sql, Exec, query, raise,
  ◌>>=◌,
}
use gradconnect_api.Store.Content.{AssessmentProfile, Employer}
use gradconnect_api.Filters.{Filters, Metadata, sort_column}
use gradconnect_api.Data.Ids.{with_uuid, fits_int4}
use gradconnect_api.Data.Listing.{bind_key, by_id, by_number, list_by}
use gradconnect_api.Data.Opportunities.Shown.{EmployerStub, stub_of}
use gradconnect_api.Data.Assessments.Validation.{CreateAssessmentInput, UpdateAssessmentInput}

-- `Assessment`: a row with the stub of its employer.
pub record Assessment : Type 0 where
  pub row : AssessmentProfile
  pub employer : EmployerStub

abbrev pub fits_100 : Option String → Bool
fits_100 none = true
fits_100 (some text) = leb (count text) 100

abbrev pub fits_weeks : Option ℤ → Bool
fits_weeks none = true
fits_weeks (some weeks) = fits_int4 weeks

-- The column types of assessment_profile: interview_format has room for 100 characters.
abbrev pub fits_assessment : AssessmentProfile → Bool
fits_assessment a =
    leb (count a.programme_type) 100
    && fits_100 a.aptitude_test_provider
    && fits_100 a.interview_format
    && fits_weeks a.timeline_weeks

-- `INNER JOIN employer e ON e.id = a.employer_id`, of one row
abbrev pub with_employer : List Employer → AssessmentProfile → Option Assessment
with_employer employers a = elim (find_first (λ (e : Employer). e.id == a.employer_id) employers) [
  | none ↦ none
  | some e ↦ some (record { row = a; employer = stub_of e })
]

abbrev pub scan_assessment : Option Assessment → Result Assessment
scan_assessment none = err record_not_found
scan_assessment (some a) = ok a

abbrev pub found_assessment : List Employer → Option AssessmentProfile → Result Assessment
found_assessment employers none = err record_not_found
found_assessment employers (some a) = scan_assessment (with_employer employers a)

abbrev pub same_version : String → ℕ → AssessmentProfile → Bool
same_version id version a = a.id == id && eqb a.version version

abbrev pub merge_assessment : UpdateAssessmentInput → AssessmentProfile → AssessmentProfile
merge_assessment input current = record current {
  programme_type = or_keep input.programme_type current.programme_type;
  stages = if input.stages.raw == "" then current.stages else input.stages.raw;
  aptitude_test_provider = or_keep_some input.aptitude_test_provider current.aptitude_test_provider;
  interview_format = or_keep_some input.interview_format current.interview_format;
  timeline_weeks = or_keep_some input.timeline_weeks current.timeline_weeks;
  prep_guide = or_keep_some input.prep_guide current.prep_guide;
}

-- What the UPDATE writes to the row, and the trigger on it.
abbrev pub saved_assessment : ℕ → AssessmentProfile → AssessmentProfile → AssessmentProfile
saved_assessment now current a = record a {
  programme_type = current.programme_type;
  stages = current.stages;
  aptitude_test_provider = current.aptitude_test_provider;
  interview_format = current.interview_format;
  timeline_weeks = current.timeline_weeks;
  prep_guide = current.prep_guide;
  version = suc a.version;
  updated_at = now;
}

module _ ⦃env : Env⦄ where
  unfoldable pub get_by_id_sql : String → Sql Assessment
  unfolding with_uuid find_first
  get_by_id_sql id = with_uuid id λ key now n db.
      (found_assessment db.employer (find_first (λ a. a.id == key) db.assessment_profile), db)

  -- `GetByID`
  unfoldable pub get_by_id : String → Exec Assessment
  unfolding get_by_id_sql query
  get_by_id id = if env.is_uuid id then query (get_by_id_sql id) else raise record_not_found

  abbrev pub new_assessment : ℕ → ℕ → String → CreateAssessmentInput → AssessmentProfile
  new_assessment now n employer_id input = record {
    id = env.uuid n;
    employer_id = employer_id;
    programme_type = input.programme_type;
    stages = input.stages.raw;
    aptitude_test_provider = input.aptitude_test_provider;
    interview_format = input.interview_format;
    timeline_weeks = input.timeline_weeks;
    prep_guide = input.prep_guide;
    version = 1;
    created_at = now;
    updated_at = now;
  }

  unfoldable pub insert_sql : CreateAssessmentInput → Sql String
  unfolding with_uuid any
  insert_sql input = with_uuid input.employer_id λ employer_id now n db.
      let created = new_assessment now n employer_id input in
      if not (fits_assessment created)
      then (err failure, db)
      else if any (λ e. e.id == employer_id) db.employer
      then (ok created.id, record db { assessment_profile = db.assessment_profile ++ created ∷ [] })
      else (err record_not_found, db)

  -- `Insert`
  unfoldable pub insert : CreateAssessmentInput → Exec Assessment
  unfolding insert_sql get_by_id query
  insert input = do id ← query (insert_sql input); get_by_id id

  unfoldable pub update_sql : String → AssessmentProfile → Sql (Unit {0})
  unfolding with_uuid any update_where
  update_sql id current = with_uuid id λ key now n db.
      if not (any (same_version key current.version) db.assessment_profile)
      then (err edit_conflict, db)
      else if fits_assessment current
      then (
        ok tt,
        record db {
          assessment_profile =
              update_where (same_version key current.version) (saved_assessment now current)
                db.assessment_profile;
        },
      )
      else (err failure, db)

  -- `Update`
  unfoldable pub update : String → UpdateAssessmentInput → Exec Assessment
  unfolding get_by_id update_sql query
  update id input = do
    current ← get_by_id id
    query (update_sql id (merge_assessment input current.row)) >>= λ done. get_by_id id

  unfoldable pub delete_sql : String → Sql (Unit {0})
  unfolding with_uuid any select
  delete_sql id = with_uuid id λ key now n db.
      if any (λ a. a.id == key) db.assessment_profile
      then (
        ok tt,
        record db { assessment_profile = select (λ a. not (a.id == key)) db.assessment_profile },
      )
      else (err record_not_found, db)

  -- `Delete`
  unfoldable pub delete : String → Exec (Unit {0})
  unfolding delete_sql query
  delete id = query (delete_sql id)

  unfoldable pub join_all : List Employer → List AssessmentProfile → List Assessment
  unfolding find_first
  join_all employers [] = []
  join_all employers (a ∷ rows) =
      let rest = join_all employers rows in
      elim (with_employer employers a) [ none ↦ rest | some shown ↦ shown ∷ rest ]

  abbrev pub assessment_key : String → Option (Assessment → Assessment → Bool)
  assessment_key column =
      if column == "programme_type"
      then some (λ a b. env.collates_before a.row.programme_type b.row.programme_type)
      else if column == "updated_at"
      then some (by_number (λ a. a.row.updated_at))
      else if column == "created_at"
      then some (by_number (λ a. a.row.created_at))
      else none

  -- The filters of the list; the employer as `none` for no filter.
  abbrev pub of_employer : Option String → Assessment → Bool
  of_employer none a = true
  of_employer (some id) a = a.row.employer_id == id

  abbrev pub is_found : String → Option String → Assessment → Bool
  is_found search employer_id a =
      (env.ilike a.row.programme_type search || env.ilike a.employer.name search || search == "")
      && of_employer employer_id a

  abbrev pub list_found : String → Option String → Filters → Sql (List Assessment × Metadata)
  list_found search employer_id filters now n db = (
    list_by (by_id (λ a. a.row.id)) (bind_key (sort_column filters) assessment_key) filters
        (select (is_found search employer_id) (join_all db.employer db.assessment_profile)),
    db,
  )

  unfoldable pub get_all_sql : String → String → Filters → Sql (List Assessment × Metadata)
  unfolding with_uuid select join_all list_by sort_column
  get_all_sql search employer_id filters =
      if employer_id == ""
      then list_found search none filters
      else with_uuid employer_id (λ id. list_found search (some id) filters)

  -- `GetAll`
  unfoldable pub get_all : String → String → Filters → Exec (List Assessment × Metadata)
  unfolding get_all_sql query
  get_all search employer_id filters = query (get_all_sql search employer_id filters)

  unfoldable pub get_all_by_employer_slug_sql : String → Filters → Sql (List Assessment × Metadata)
  unfolding select join_all list_by sort_column
  get_all_by_employer_slug_sql slug filters now n db = (
    list_by (by_id (λ a. a.row.id)) (bind_key (sort_column filters) assessment_key) filters
        (select (λ a. a.employer.slug == slug) (join_all db.employer db.assessment_profile)),
    db,
  )

  -- `GetAllByEmployerSlug`
  unfoldable pub get_all_by_employer_slug : String → Filters → Exec (List Assessment × Metadata)
  unfolding get_all_by_employer_slug_sql query
  get_all_by_employer_slug slug filters = query (get_all_by_employer_slug_sql slug filters)
