-- ===== src/Data/Listing.antt =====
-- What the list queries of internal/data share: ORDER BY a column with the id as tie breaker, LIMIT and
-- OFFSET, count(*) OVER() and the metadata made of it.
pub mod Pages
pub mod Members
use Prim.Native.Char.{code}
use Prim.Native.String
use gradconnect_api.Common.{
  ℕ, zero, suc, String, Bool, true, false, not, ◌&&◌, ◌||◌, Option, none, some, List, [], ◌∷◌, ◌==◌,
  ltb, eqb, length, if◌then◌else◌,
}
use gradconnect_api.Common.Int.{ℤ, pos, ltbℤ, pos_part}
use gradconnect_api.Store.{failure, Result, ok, err}
use gradconnect_api.Filters.{Filters, Metadata, sort_direction, limit, offset, calculate_metadata}

module _ {A : Type 0} where
  unfoldable pub take : ℕ → List A → List A
  take zero xs = []
  take (suc n) [] = []
  take (suc n) (x ∷ xs) = x ∷ take n xs

  unfoldable pub drop : ℕ → List A → List A
  drop zero xs = xs
  drop (suc n) [] = []
  drop (suc n) (x ∷ xs) = drop n xs

  -- `LIMIT … OFFSET …`
  unfoldable pub page : ℕ → ℕ → List A → List A
  unfolding take drop
  page limit offset xs = take limit (drop offset xs)

  unfoldable pub insert_by : (A → A → Bool) → A → List A → List A
  insert_by before x [] = x ∷ []
  insert_by before x (y ∷ ys) = if before x y then x ∷ y ∷ ys else y ∷ insert_by before x ys

  -- `ORDER BY`
  unfoldable pub order_by : (A → A → Bool) → List A → List A
  unfolding insert_by
  order_by before [] = []
  order_by before (x ∷ xs) = insert_by before x (order_by before xs)

  -- The count that the rows of a page carry: no row, no count.
  unfoldable pub count_over : List A → List A → ℕ
  count_over [] all = 0
  count_over (x ∷ shown) all = length all

-- Ids in the order of uuid, which is that of their canonical texts.
unfoldable pub text_ltb : String → String → Bool
text_ltb String.[] String.[] = false
text_ltb String.[] (String.◌∷◌ d t) = true
text_ltb (String.◌∷◌ c s) String.[] = false
text_ltb (String.◌∷◌ c s) (String.◌∷◌ d t) =
    ltb (code c) (code d) || (eqb (code c) (code d) && text_ltb s t)

-- The order of a column of numbers, of one with NULL, which is larger than every number, and of ids.
abbrev pub by_number : {A : Type 0} → (A → ℕ) → A → A → Bool
by_number key a b = ltb (key a) (key b)

abbrev pub null_last : Option ℕ → Option ℕ → Bool
null_last none _ = false
null_last (some m) none = true
null_last (some m) (some n) = ltb m n

abbrev pub by_nullable : {A : Type 0} → (A → Option ℕ) → A → A → Bool
by_nullable key a b = null_last (key a) (key b)

abbrev pub by_id : {A : Type 0} → (A → String) → A → A → Bool
by_id id a b = text_ltb (id a) (id b)

-- `ORDER BY column direction, tie ASC`
unfoldable pub comes_before : {A : Type 0} → String → (A → A → Bool) → (A → A → Bool) → A → A → Bool
unfolding text_ltb
comes_before direction column tie a b =
    let undecided = not (column a b) && not (column b a) && not (tie b a) in
    if direction == "DESC" then column b a || undecided else column a b || undecided

abbrev pub with_metadata : {A : Type 0} → List A → Option Metadata → Result (List A × Metadata)
with_metadata rows none = err failure
with_metadata rows (some m) = ok (rows, m)

-- A negative LIMIT or OFFSET is an error of the database. Then `CalculateMetadata`, which has no page
-- size to divide by only if there is no row.
unfoldable pub listing :
    {A : Type 0} → (A → A → Bool) → Filters → List A → Result (List A × Metadata)
unfolding page order_by count_over limit offset calculate_metadata
listing before f all =
    let rows = page (pos_part (limit f)) (pos_part (offset f)) (order_by before all) in
    if ltbℤ (limit f) (pos 0) || ltbℤ (offset f) (pos 0)
    then err failure
    else with_metadata rows
        (calculate_metadata (count_over rows all) (pos_part f.page) (pos_part f.page_size))

-- A sort value outside of the safe list, at which sortColumn panics, is an error here: the handlers
-- validate it first.
abbrev pub bind_key : {B : Type 0} → Option String → (String → Option B) → Option B
bind_key none key = none
bind_key (some column) key = key column

unfoldable pub list_by :
    {A : Type 0}
    → (A → A → Bool)
    → Option (A → A → Bool)
    → Filters
    → List A
    → Result (List A × Metadata)
unfolding listing sort_direction comes_before
list_by tie none f rows = err failure
list_by tie (some column) f rows = listing (comes_before (sort_direction f) column tie) f rows
