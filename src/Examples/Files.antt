-- ===== src/Examples/Files.antt =====
-- A bulk import of a small file.
use gradconnect_api.Common.{
  ℕ, ◌≡◌, ◌<◌, refl, inl, true, none, some, List, [], ◌∷◌, ◌==◌, length, arith, if◌then◌else◌,
}
use gradconnect_api.Store.{failure, pure, raise, in_transaction, finish}
use gradconnect_api.App.Imports.{
  Row, RowProcessor, completed, too_few_columns, processor_error, index_columns, require_columns,
  process_records,
}
use gradconnect_api.App.Imports.Columns.{require_columns-bounds}
use gradconnect_api.App.Imports.Jobs.{Storage, loaded, download_failed, ImportState, process_import}
use gradconnect_api.Examples.{test_env, world}

abbrev header : Row
header = "name" ∷ "slug" ∷ "industry" ∷ []

-- Four rows: one short, one that the processor rejects.
abbrev records : List Row
records =
    header
    ∷ ("Acme" ∷ "acme" ∷ "energy" ∷ [])
    ∷ ("Short" ∷ [])
    ∷ ("Bad" ∷ "" ∷ "law" ∷ [])
    ∷ ("Last" ∷ "last" ∷ "law" ∷ [])
    ∷ []

-- A processor that wants a name other than "Bad".
abbrev named_row : RowProcessor
named_row [] idx w = raise failure w
named_row (name ∷ rest) idx w = if name == "Bad" then raise failure w else pure tt w

two_imported :
    (process_records ⦃env = test_env⦄ named_row named_row "employers" records world).0
    ≡ completed 4 (record {
      rows_imported = 2;
      row_errors =
          record { row_number = 3; message = too_few_columns 1 3 }
          ∷ record { row_number = 4; message = processor_error failure }
          ∷ [];
    })
unfolding process_records in_transaction finish
two_imported = refl

abbrev acme : Row
acme = "Acme" ∷ "acme" ∷ "energy" ∷ []

none_missing : require_columns (index_columns header) ("slug" ∷ []) ≡ none
unfolding require_columns index_columns
none_missing = refl

require_columns-bounds_example :
    (i : ℕ) × (index_columns header "slug" ≡ some i) × (i < length acme)
require_columns-bounds_example =
    require_columns-bounds header acme ("slug" ∷ []) "slug" none_missing (inl refl) (omega arith)

-- The file of the one job, which the storage deletes.
abbrev storage : Storage
storage = record {
  load = λ key. if key == "imports/1.csv" then loaded records else download_failed "no such key";
  deletes = λ key. true;
}

abbrev waiting : ImportState
waiting = record {
  jobs =
      record {
        id = "job1";
        import_type = "employers";
        file_path = "imports/1.csv";
        status = "pending";
        rows_total = none;
        rows_imported = none;
        row_errors = [];
        error_message = none;
        completed_at = none;
      }
      ∷ [];
  files = "imports/1.csv" ∷ [];
  world = world;
}

no_error : (process_import ⦃env = test_env⦄ storage named_row named_row "job1" waiting).0 ≡ none
unfolding process_import in_transaction finish
no_error = refl

nothing_left :
    (process_import ⦃env = test_env⦄ storage named_row named_row "job1" waiting).1.files ≡ []
unfolding process_import in_transaction finish
nothing_left = refl
