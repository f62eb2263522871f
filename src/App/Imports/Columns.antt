-- ===== src/App/Imports/Columns.antt =====
-- A required column is read within the row (internal/app/import_processor.go, `requireColumns`).
use gradconnect_api.Common.{
  ℕ, suc, ◌+◌, ◌<◌, ◌≤◌, String, ◌≡◌, refl, sym, subst, inl, inr, Option, none, some, List, [], ◌∷◌,
  ◌==◌, arith, length, assign, In, Bool-cases,
}
use gradconnect_api.App.Imports.{
  ColumnIndex, Row, index_from, index_columns, require_columns, check_column,
}

-- An index that is set lies below a bound.
abbrev Below : ℕ → ColumnIndex → Type 0
Below bound idx = (name : String) (i : ℕ) → idx name ≡ some i → i < bound

index_from-Below :
    (i : ℕ) (names : Row) (idx : ColumnIndex)
    → Below i idx
    → Below (i + length names) (index_from i names idx)
index_from-Below i [] idx h = λ name j e. omega (arith, h name j e)
index_from-Below i (n ∷ names) idx h =
    λ name j e. omega (arith, index_from-Below (suc i) names (assign n i idx) step name j e)
  where
    step : Below (suc i) (assign n i idx)
    step = λ name j e. elim (Bool-cases (n == name)) [
      | inl same ↦ ground arith
      | inr other ↦ omega (arith, h name j (ground arith))
    ]

checked :
    (o : Option ℕ) (name : String) (rest : Option String)
    → check_column o name rest ≡ none
    → ((i : ℕ) × (o ≡ some i)) × (rest ≡ none)
checked none name rest h = cc
checked (some i) name rest h = ((i, refl), h)

required :
    (idx : ColumnIndex) (names : List String) (name : String)
    → require_columns idx names ≡ none
    → In name names
    → (i : ℕ) × (idx name ≡ some i)
unfolding require_columns
required idx [] name h i = absurd i
required idx (n ∷ names) name h (inl e) =
    let (i, found) = (checked (idx n) n (require_columns idx names) h).0 in
    (i, subst (λ x. idx x ≡ some i) (sym e) found)
required idx (n ∷ names) name h (inr i) =
    required idx names name (checked (idx n) n (require_columns idx names) h).1 i

-- If no required column is missing, each has an index, and it is within every row that has at least as
-- many fields as the header.
pub require_columns-bounds :
    (header row : Row) (names : List String) (name : String)
    → require_columns (index_columns header) names ≡ none
    → In name names
    → length header ≤ length row
    → (i : ℕ) × (index_columns header name ≡ some i) × (i < length row)
unfolding index_columns
require_columns-bounds header row names name h there enough =
    let (i, e) = required (index_columns header) names name h there in
    (
      i,
      e,
      omega (arith, enough, index_from-Below 0 header (λ name. none) (λ name j e. cc) name i e),
    )
