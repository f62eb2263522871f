-- ===== src/App/Imports/Runs.antt =====
-- What an import leaves in the row of its job (internal/app/import_processor.go, `processImport`).
use gradconnect_api.Common.{
  ℕ, suc, ◌+◌, ◌<◌, String, ◌≡◌, ◌≢◌, ◌⊎◌, true, not, Option, none, some, List, ◌==◌, ◌+++◌, length,
  select, In, if◌then◌else◌,
}
use gradconnect_api.Store.{Env, Db}
use gradconnect_api.App.Imports.{RowProcessor}
use gradconnect_api.App.Imports.Counts.{Accounts}
use gradconnect_api.App.Imports.Jobs.{
  ImportJob, ImportState, Storage, Loaded, download_failed, parse_failed, loaded, Verdict, accepted,
  refused,
}

-- Every row of the id is `P` of one from before, and there is one for each; the other rows are as before.
abbrev pub OnlyJob :
    String → (ImportJob → ImportJob → Type 0) → List ImportJob → List ImportJob → Type 0
OnlyJob id P before after =
    ((r : ImportJob)
      → In r after
      → (a : ImportJob) × In a before × (((a.id ≡ id) × P a r) ⊎ ((a.id ≢ id) × (r ≡ a))))
    × ((a : ImportJob) → In a before → a.id ≡ id → (r : ImportJob) × In r after × P a r)
    × ((a : ImportJob) → In a before → a.id ≢ id → In a after)

-- What an import of the records under a key is to report, and the tables that it leaves: a complete one
-- has counted each row below the header as imported or as an error; a refused one has changed nothing.
abbrev pub IsVerdict : Loaded → Db → Verdict → Db → Type 0
IsVerdict (loaded records) before (accepted total p) after =
    (total + 1 ≡ length records) × Accounts total p
IsVerdict (loaded records) before (refused total message) after =
    (total < 1 + length records) × (after ≡ before)
IsVerdict (download_failed e) before v after =
    (v ≡ refused 0 ("download file: " +++ e)) × (after ≡ before)
IsVerdict (parse_failed e) before v after = (v ≡ refused 0 ("parse csv: " +++ e)) × (after ≡ before)

-- The row `r` of the job reports the verdict.
abbrev pub IsReported : Verdict → ℕ → ImportJob → ImportJob → Type 0
IsReported (accepted total p) now a r =
    (r.status ≡ "completed")
    × (r.rows_total ≡ some total)
    × (r.rows_imported ≡ some p.rows_imported)
    × (r.row_errors ≡ p.row_errors)
    × (r.error_message ≡ a.error_message)
    × (r.completed_at ≡ some now)
    × (r.id ≡ a.id)
IsReported (refused total message) now a r =
    (r.status ≡ "failed")
    × (r.rows_total ≡ some total)
    × (r.rows_imported ≡ a.rows_imported)
    × (r.row_errors ≡ a.row_errors)
    × (r.error_message ≡ some message)
    × (r.completed_at ≡ some now)
    × (r.id ≡ a.id)

-- What the handler returns for it.
abbrev pub result_of : Verdict → Option String
result_of (accepted total p) = none
result_of (refused total message) = some message

module _ ⦃env : Env⦄ where
  -- The job behind the verdict: the driver failed the last UPDATE, and the job is still processing; or
  -- the row reports the verdict, and the handler returns it.
  abbrev pub IsConcluded : String → Verdict → List ImportJob → Option String × ImportState → Type 0
  IsConcluded id v before out =
      ((k : ℕ) × (out.1.world.queries ≡ suc k)
        × (env.fails k ≡ true)
        × (out.0 ≢ none)
        × OnlyJob id (λ a r. r ≡ record a { status = "processing" }) before out.1.jobs)
      ⊎ ((out.0 ≡ result_of v) × OnlyJob id (IsReported v out.1.world.now) before out.1.jobs)

  module _ (storage : Storage) (employers opportunities : RowProcessor) where
    -- The outcome of a run of an import job.
    abbrev pub ImportRun : String → ImportState → Option String × ImportState → Type 0
    ImportRun job_id s out =
        ((out.0 ≢ none)
          × (out.1.jobs ≡ s.jobs)
          × (out.1.files ≡ s.files)
          × (out.1.world.db ≡ s.world.db))
        ⊎ ((id : String) × (job : ImportJob) × (v : Verdict) × (env.uuid_of job_id ≡ some id)
            × In job s.jobs
            × (job.id ≡ id)
            × IsVerdict (storage.load job.file_path) s.world.db v out.1.world.db
            × (out.1.files ≡ (
                if storage.deletes job.file_path
                then select (λ k. not (k == job.file_path)) s.files
                else s.files))
            × IsConcluded id v s.jobs out)
