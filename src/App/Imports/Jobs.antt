-- ===== src/App/Imports/Jobs.antt =====
-- internal/data/import_jobs.go and `processImport` of internal/app/import_processor.go: the job of an
-- import, whose row no other part of the program that is modelled reads. The storage is a parameter.
use gradconnect_api.Common.{
  ℕ, String, Bool, not, Option, none, some, List, ◌==◌, ◌+++◌, select, find_first, update_where,
  if◌then◌else◌,
}
use gradconnect_api.Store.{record_not_found, failure, Result, ok, err, Env, World, tick}
use gradconnect_api.App.Imports.{
  Row, RowProcessor, RowError, Progress, Outcome, too_short, missing_column, unknown_type,
  completed, process_records,
}

-- A row of import_job, without its user and the time of its creation.
pub record ImportJob : Type 0 where
  pub id : String
  pub import_type : String
  pub file_path : String
  pub status : String
  pub rows_total : Option ℕ
  pub rows_imported : Option ℕ
  pub row_errors : List RowError
  pub error_message : Option String
  pub completed_at : Option ℕ

-- What Download and the CSV reader make of a key, or the text of the error that one of them returns.
pub data Loaded : Type 0 where
  download_failed parse_failed : String → Loaded
  loaded : List Row → Loaded

-- The storage: what it has under a key, and whether it deletes the key when it is asked to.
pub record Storage : Type 0 where
  pub load : String → Loaded
  pub deletes : String → Bool

-- The table import_job and the keys in the storage, beside the rest of the world.
pub record ImportState : Type 0 where
  pub jobs : List ImportJob
  pub files : List String
  pub world : World

abbrev pub next_query : ImportState → ImportState
next_query s = record s { world = tick s.world }

abbrev pub JobSql : Type 0 → Type 0
JobSql A = ℕ → List ImportJob → Result A × List ImportJob

abbrev pub on_job_id :
    {A : Type 0} → Option String → (String → JobSql A) → ImportState → Result A × ImportState
on_job_id none f s = (err failure, next_query s)
on_job_id (some id) f s =
    let (r, jobs) = f id s.world.now s.jobs in (r, record (next_query s) { jobs = jobs })

abbrev pub scan_job : Option ImportJob → Result ImportJob
scan_job none = err record_not_found
scan_job (some job) = ok job

-- `UPDATE import_job SET … WHERE id = …`
unfoldable pub set_job : String → (ImportJob → ImportJob) → List ImportJob → List ImportJob
unfolding update_where
set_job id f jobs = update_where (λ j. j.id == id) f jobs

module _ ⦃env : Env⦄ where
  -- A statement on the job with the id, which is cast to uuid.
  unfoldable pub job_query :
      {A : Type 0} → (String → JobSql A) → String → ImportState → Result A × ImportState
  job_query f job_id s =
      if env.fails s.world.queries
      then (err failure, next_query s)
      else on_job_id (env.uuid_of job_id) f s

  -- `GetByID`
  unfoldable pub get_job : String → ImportState → Result ImportJob × ImportState
  unfolding job_query find_first
  get_job = job_query λ id now jobs. (scan_job (find_first (λ j. j.id == id) jobs), jobs)

  unfoldable pub mark :
      (ℕ → ImportJob → ImportJob) → String → ImportState → Result (Unit {0}) × ImportState
  unfolding job_query set_job
  mark f = job_query λ id now jobs. (ok tt, set_job id (f now) jobs)

abbrev pub processing_job : ℕ → ImportJob → ImportJob
processing_job now j = record j { status = "processing" }

abbrev pub completed_job : ℕ → Progress → ℕ → ImportJob → ImportJob
completed_job total p now j = record j {
  status = "completed";
  rows_total = some total;
  rows_imported = some p.rows_imported;
  row_errors = p.row_errors;
  completed_at = some now;
}

abbrev pub failed_job : ℕ → String → ℕ → ImportJob → ImportJob
failed_job total message now j = record j {
  status = "failed";
  rows_total = some total;
  error_message = some message;
  completed_at = some now;
}

-- What stops an import as a whole: the number of rows that is stored, and the message.
pub data Verdict : Type 0 where
  accepted : (total : ℕ) → Progress → Verdict
  refused : (total : ℕ) → String → Verdict

abbrev pub verdict_of : String → Outcome → Verdict
verdict_of import_type too_short =
    refused 0 "csv must contain a header row and at least one data row"
verdict_of import_type (missing_column total name) =
    refused total ("missing required column: " +++ name)
verdict_of import_type (unknown_type total) =
    refused total ("unknown import type: " +++ import_type)
verdict_of import_type (completed total p) = accepted total p

module _ ⦃env : Env⦄ where
  -- `MarkProcessing`, `MarkCompleted` and `MarkFailed`
  unfoldable pub mark_processing : String → ImportState → Result (Unit {0}) × ImportState
  unfolding mark
  mark_processing = mark processing_job

  unfoldable pub mark_completed :
      String → ℕ → Progress → ImportState → Result (Unit {0}) × ImportState
  unfolding mark
  mark_completed job_id total p = mark (completed_job total p) job_id

  unfoldable pub mark_failed : String → ℕ → String → ImportState → Result (Unit {0}) × ImportState
  unfolding mark
  mark_failed job_id total message = mark (failed_job total message) job_id

  abbrev pub returned : Result (Unit {0}) × ImportState → Option String × ImportState
  returned (ok done, s) = (none, s)
  returned (err e, s) = (some "mark completed", s)

  -- The end of an import. The error of `MarkFailed` is dropped.
  abbrev pub conclude : String → Verdict → ImportState → Option String × ImportState
  conclude job_id (accepted total p) s = returned (mark_completed job_id total p s)
  conclude job_id (refused total message) s = (some message, (mark_failed job_id total message s).1)

  -- The deferred Delete; its error is logged and dropped.
  abbrev pub clean_up : Storage → String → Option String × ImportState → Option String × ImportState
  clean_up storage key (result, s) = (
    result,
    record s {
      files = if storage.deletes key then select (λ k. not (k == key)) s.files else s.files;
    },
  )

  module _ (storage : Storage) (employers opportunities : RowProcessor) where
    abbrev pub import_records : String → List Row → World → Verdict × World
    import_records import_type records w =
        let (o, w') = process_records employers opportunities import_type records w in
        (verdict_of import_type o, w')

    abbrev pub import_loaded : String → Loaded → World → Verdict × World
    import_loaded import_type (download_failed e) w = (refused 0 ("download file: " +++ e), w)
    import_loaded import_type (parse_failed e) w = (refused 0 ("parse csv: " +++ e), w)
    import_loaded import_type (loaded records) w = import_records import_type records w

    abbrev pub on_processing :
        String → ImportJob → Result (Unit {0}) × ImportState → Option String × ImportState
    on_processing job_id job (err e, s) = (some "mark processing", s)
    on_processing job_id job (ok done, s) =
        let (v, w) = import_loaded job.import_type (storage.load job.file_path) s.world in
        clean_up storage job.file_path (conclude job_id v (record s { world = w }))

    abbrev pub on_job : String → Result ImportJob × ImportState → Option String × ImportState
    on_job job_id (err e, s) = (some "fetch import job", s)
    on_job job_id (ok job, s) = on_processing job_id job (mark_processing job_id s)

    -- `processImport`; the texts of errors that are not stored are shortened.
    unfoldable pub process_import : String → ImportState → Option String × ImportState
    unfolding get_job mark_processing mark_completed mark_failed process_records select
    process_import job_id s = on_job job_id (get_job job_id s)
