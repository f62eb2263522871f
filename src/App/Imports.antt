-- ===== src/App/Imports.antt =====
-- internal/app/import_processor.go: a bulk import, from the records that the CSV reader returns to the
-- outcome; what is written to the row of the job for an outcome is in Jobs. The processors of a row are parameters, as in the code; of a row's error the
-- excerpt of the row is left out.
pub mod Counts
pub mod Columns
pub mod Jobs
pub mod Runs
use gradconnect_api.Common.{
  ℕ, suc, ◌+◌, String, Bool, true, false, Option, none, some, List, [], ◌∷◌, ◌++◌, ◌==◌, ltb,
  length, assign, if◌then◌else◌,
}
use gradconnect_api.Store.{Err, failure, Result, ok, err, Env, World, Exec, raise, in_transaction}

-- The index of a column's name.
abbrev pub ColumnIndex : Type 0
ColumnIndex = String → Option ℕ

abbrev pub Row : Type 0
Row = List String

abbrev pub index_from : ℕ → Row → ColumnIndex → ColumnIndex
index_from i [] idx = idx
index_from i (name ∷ names) idx = index_from (suc i) names (assign name i idx)

-- `indexColumns`: of two columns of one name the last counts.
unfoldable pub index_columns : Row → ColumnIndex
index_columns header = index_from 0 header (λ name. none)

abbrev pub check_column : Option ℕ → String → Option String → Option String
check_column none name rest = some name
check_column (some i) name rest = rest

-- `requireColumns`: the first name that is missing
unfoldable pub require_columns : ColumnIndex → List String → Option String
require_columns idx [] = none
require_columns idx (name ∷ names) = check_column (idx name) name (require_columns idx names)

-- The messages of a row's error: too few columns, with their number and the number expected, or what
-- the row's transaction returned.
pub data RowMessage : Type 0 where
  too_few_columns : (has expected : ℕ) → RowMessage
  processor_error : Err → RowMessage

-- `ImportJobRowError`
pub record RowError : Type 0 where
  pub row_number : ℕ
  pub message : RowMessage

-- `rowProcessor`
abbrev pub RowProcessor : Type 0
RowProcessor = Row → ColumnIndex → Exec (Unit {0})

pub record Progress : Type 0 where
  pub rows_imported : ℕ
  pub row_errors : List RowError

-- How an import of records ends: for each of these a Mark of the job is written (Jobs).
pub data Outcome : Type 0 where
  too_short : Outcome
  missing_column : (total : ℕ) → String → Outcome
  unknown_type : (total : ℕ) → Outcome
  completed : (total : ℕ) → Progress → Outcome

abbrev pub imported : Progress → Progress
imported p = record p { rows_imported = p.rows_imported + 1 }

abbrev pub rejected : ℕ → RowMessage → Progress → Progress
rejected number message p = record p {
  row_errors = p.row_errors ++ record { row_number = number; message = message } ∷ [];
}

abbrev pub note_result : ℕ → Result (Unit {0}) → Progress → Progress
note_result number (ok done) p = imported p
note_result number (err e) p = rejected number (processor_error e) p

-- `processAssessmentRow`
abbrev pub process_assessment_row : RowProcessor
process_assessment_row row idx w = raise failure w

module _ ⦃env : Env⦄ where
  -- One pass of the loop over the rows.
  unfoldable pub import_row : RowProcessor → Row → ℕ → Row → Progress × World → Progress × World
  import_row processor header number row (p, w) =
      if ltb (length row) (length header)
      then (rejected number (too_few_columns (length row) (length header)) p, w)
      else let (r, w') = in_transaction (processor row (index_columns header)) w in
        (note_result number r p, w')

  -- The rows are numbered from 2: the header is row 1.
  unfoldable pub import_rows :
      RowProcessor → Row → ℕ → List Row → Progress × World → Progress × World
  unfolding import_row
  import_rows processor header number [] out = out
  import_rows processor header number (row ∷ rows) out =
      import_rows processor header (suc number) rows (import_row processor header number row out)

  abbrev pub start_rows : Option String → RowProcessor → Row → List Row → World → Outcome × World
  start_rows (some name) processor header rows w = (missing_column (length rows) name, w)
  start_rows none processor header rows w =
      let (p, w') =
        import_rows processor header 2 rows (record { rows_imported = 0; row_errors = [] }, w) in
      (completed (length rows) p, w')

  unfoldable pub import_with : List String → RowProcessor → Row → List Row → World → Outcome × World
  unfolding import_rows require_columns index_columns
  import_with required processor header rows =
      start_rows (require_columns (index_columns header) required) processor header rows

  abbrev pub employer_columns : List String
  employer_columns = "name" ∷ "slug" ∷ "industry" ∷ []

  abbrev pub opportunity_columns : List String
  opportunity_columns =
      "employer_id" ∷ "title" ∷ "slug" ∷ "type" ∷ "intake_year" ∷ "description" ∷ "location"
      ∷ "application_url" ∷ []

  abbrev pub assessment_columns : List String
  assessment_columns = "employer_slug" ∷ "programme_type" ∷ []

  -- `processImport`, from the records on. The first two processors are those of the other tables.
  unfoldable pub process_records :
      (employers opportunities : RowProcessor) → String → List Row → World → Outcome × World
  unfolding import_with
  process_records employers opportunities import_type [] w = (too_short, w)
  process_records employers opportunities import_type (header ∷ []) w = (too_short, w)
  process_records employers opportunities import_type (header ∷ row ∷ rows) w =
      if import_type == "employers"
      then import_with employer_columns employers header (row ∷ rows) w
      else if import_type == "opportunities"
      then import_with opportunity_columns opportunities header (row ∷ rows) w
      else if import_type == "assessments"
      then import_with assessment_columns process_assessment_row header (row ∷ rows) w
      else (unknown_type (length (row ∷ rows)), w)
