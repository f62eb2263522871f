-- ===== src/App/Imports/Counts.antt =====
-- The report of an import accounts for every row (internal/app/import_processor.go, `processImport`).
use gradconnect_api.Common.{
  ℕ, suc, ◌+◌, ◌<◌, ◌≤◌, String, ◌≡◌, refl, subst, Option, none, some, List, [], ◌∷◌, ◌++◌, ◌==◌,
  arith, ltb, length, length-append, if-cases,
}
use gradconnect_api.Store.{Result, ok, err, Env, World, in_transaction}
use gradconnect_api.App.Imports.{
  Row, RowError, RowMessage, RowProcessor, Progress, Outcome, too_short, missing_column,
  unknown_type, completed, rejected, note_result, import_row, import_rows, start_rows, import_with,
  process_records, too_few_columns, processor_error, employer_columns, opportunity_columns,
  assessment_columns, process_assessment_row, require_columns, index_columns,
}

-- Rows imported and errors add up to a number of rows, and the errors name rows below a bound, each
-- later than the one before.
abbrev pub Ascending : ℕ → ℕ → List RowError → Type 0
Ascending low high [] = low ≤ high
Ascending low high (e ∷ es) = (low ≤ e.row_number) × Ascending (e.row_number + 1) high es

abbrev pub Accounts : ℕ → Progress → Type 0
Accounts seen p =
    (p.rows_imported + length p.row_errors ≡ seen) × Ascending 2 (seen + 2) p.row_errors

Ascending-weaken :
    (low high next : ℕ) (es : List RowError)
    → next ≡ high + 1
    → Ascending low high es
    → Ascending low next es
Ascending-weaken low high next [] s h = omega (arith, h, s)
Ascending-weaken low high next (e ∷ es) s (a, h) =
    (a, Ascending-weaken (e.row_number + 1) high next es s h)

Ascending-append :
    (low high next : ℕ) (es : List RowError) (e : RowError)
    → next ≡ high + 1
    → e.row_number ≡ high
    → Ascending low high es
    → Ascending low next (es ++ e ∷ [])
Ascending-append low high next [] e s n h = (omega (arith, n, h), omega (arith, n, s))
Ascending-append low high next (x ∷ es) e s n (a, h) =
    (a, Ascending-append (x.row_number + 1) high next es e s n h)

rejected-Accounts :
    (seen number : ℕ) (p : Progress) (m : RowMessage)
    → number ≡ seen + 2
    → Accounts seen p
    → Accounts (seen + 1) (rejected number m p)
rejected-Accounts seen number p m n (sum, order) = (
  omega (arith, sum, length-append p.row_errors (record { row_number = number; message = m } ∷ [])),
  Ascending-append 2 (seen + 2) (seen + 1 + 2) p.row_errors
      (record { row_number = number; message = m }) (omega arith) n order,
)

note_result-Accounts :
    (seen number : ℕ) (r : Result (Unit {0})) (p : Progress)
    → number ≡ seen + 2
    → Accounts seen p
    → Accounts (seen + 1) (note_result number r p)
note_result-Accounts seen number (ok done) p n (sum, order) = (
  omega (arith, sum),
  Ascending-weaken 2 (seen + 2) (seen + 1 + 2) p.row_errors (omega arith) order,
)
note_result-Accounts seen number (err e) p n h =
    rejected-Accounts seen number p (processor_error e) n h

module _ ⦃env : Env⦄ (processor : RowProcessor) (header : Row) where
  import_row-Accounts :
      (seen number : ℕ) (row : Row) (p : Progress) (w : World)
      → number ≡ seen + 2
      → Accounts seen p
      → Accounts (seen + 1) (import_row processor header number row (p, w)).0
  unfolding import_row
  import_row-Accounts seen number row p w n h =
      if-cases (λ (out : Progress × World). Accounts (seen + 1) out.0)
        (ltb (length row) (length header)) _ _
        (λ short.
          rejected-Accounts seen number p (too_few_columns (length row) (length header)) n h)
        (λ full.
          note_result-Accounts seen number
            (in_transaction (processor row (index_columns header)) w).0 p n h)

  import_rows-Accounts :
      (seen number : ℕ) (rows : List Row) (p : Progress) (w : World)
      → number ≡ seen + 2
      → Accounts seen p
      → Accounts (seen + length rows) (import_rows processor header number rows (p, w)).0
  unfolding import_rows
  import_rows-Accounts seen number [] p w n h = subst (λ k. Accounts k p) (omega arith) h
  import_rows-Accounts seen number (row ∷ rows) p w n h =
      let out : Progress × World = import_row processor header number row (p, w) in
      subst (λ k. Accounts k (import_rows processor header (suc number) rows out).0) (omega arith)
        (import_rows-Accounts (seen + 1) (suc number) rows out.0 out.1 (omega (arith, n))
          (import_row-Accounts seen number row p w n h))

-- The report of an import of some records. Only a complete one has run anything.
abbrev pub Report : List Row → World → Outcome × World → Type 0
Report records before (completed total p, after) = (total + 1 ≡ length records) × Accounts total p
Report records before (missing_column total name, after) =
    (total + 1 ≡ length records) × (after ≡ before)
Report records before (unknown_type total, after) = (total + 1 ≡ length records) × (after ≡ before)
Report records before (too_short, after) = (length records < 2) × (after ≡ before)

module _ ⦃env : Env⦄ where
  start_rows-Report :
      (missing : Option String) (processor : RowProcessor) (header : Row) (rows : List Row)
      (w : World)
      → Report (header ∷ rows) w (start_rows missing processor header rows w)
  start_rows-Report (some name) processor header rows w = (omega arith, refl)
  start_rows-Report none processor header rows w = (
    omega arith,
    subst
        (λ k.
          Accounts k
            (import_rows processor header 2 rows
              (record { rows_imported = 0; row_errors = [] }, w)).0)
        (omega arith)
        (import_rows-Accounts processor header 0 2 rows
          (record { rows_imported = 0; row_errors = [] }) w refl (refl, omega arith)),
  )

  import_with-Report :
      (required : List String) (processor : RowProcessor) (header : Row) (rows : List Row)
      (w : World)
      → Report (header ∷ rows) w (import_with required processor header rows w)
  unfolding import_with
  import_with-Report required processor header rows w =
      start_rows-Report (require_columns (index_columns header) required) processor header rows w

  -- In the report of a completed import the rows imported and the errors add up to the rows below the
  -- header, and the errors name lines of the file below the header, in ascending order. An import that is
  -- refused as a whole, for too few records, a missing column or an unknown type, changes nothing.
  pub process_records-Report :
      (employers opportunities : RowProcessor) (import_type : String) (records : List Row)
      (w : World)
      → Report records w (process_records employers opportunities import_type records w)
  unfolding process_records
  process_records-Report employers opportunities import_type [] w = (omega arith, refl)
  process_records-Report employers opportunities import_type (header ∷ []) w = (omega arith, refl)
  process_records-Report employers opportunities import_type (header ∷ row ∷ rows) w =
      let P : Outcome × World → Type 0 = Report (header ∷ row ∷ rows) w in
      if-cases P (import_type == "employers") _ _
        (λ _. import_with-Report employer_columns employers header (row ∷ rows) w)
        (λ _.
          if-cases P (import_type == "opportunities") _ _
            (λ _. import_with-Report opportunity_columns opportunities header (row ∷ rows) w)
            (λ _.
              if-cases P (import_type == "assessments") _ (unknown_type (length (row ∷ rows)), w)
                (λ _.
                  import_with-Report assessment_columns process_assessment_row header (row ∷ rows)
                    w)
                (λ _. (omega arith, refl))))
