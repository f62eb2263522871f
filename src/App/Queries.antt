-- ===== src/App/Queries.antt =====
-- internal/app/helpers.go: the readers of query strings and path parameters. A query is what
-- r.URL.Query() holds, key by key in order.
use gradconnect_api.Common.{
  ℕ, ◌+◌, String, Bool, true, false, Option, none, some, List, [], ◌∷◌, ◌==◌, contains, lookup,
  if◌then◌else◌,
}
use gradconnect_api.Common.Int.{ℤ}
use gradconnect_api.Common.Decimal.{parse_int}
use gradconnect_api.Common.Calendar.{parse_date}
use gradconnect_api.Validator.{Validator, add_error}
use gradconnect_api.Store.{Env}
use gradconnect_api.Filters.{Filters}
use gradconnect_api.App.Http.{Handler, not_found_response}

abbrev pub Query : Type 0
Query = List (String × String)

-- `qs.Get(key)`: the first value, or ""
abbrev pub or_empty : Option String → String
or_empty none = ""
or_empty (some s) = s

unfoldable pub get : Query → String → String
unfolding lookup
get qs key = or_empty (lookup key qs)

unfoldable pub read_string : Query → String → String → String
unfolding get
read_string qs key default_value = if get qs key == "" then default_value else get qs key

abbrev pub max_int64 : ℕ
max_int64 = 9223372036854775807

abbrev pub int_or : Option ℤ → String → ℤ → Validator → ℤ × Validator
int_or none key default_value v = (default_value, add_error key "must be an integer value" v)
int_or (some i) key default_value v = (i, v)

-- The value, and the validator that the reader may have added an error to. `strconv.Atoi` reads what
-- ParseInt does for 64 bits.
unfoldable pub read_int : Query → String → ℤ → Validator → ℤ × Validator
unfolding get parse_int add_error
read_int qs key default_value v =
    if get qs key == ""
    then (default_value, v)
    else int_or (parse_int max_int64 (max_int64 + 1) (get qs key)) key default_value v

abbrev pub true_texts : List String
true_texts = "1" ∷ "t" ∷ "T" ∷ "true" ∷ "TRUE" ∷ "True" ∷ []

abbrev pub false_texts : List String
false_texts = "0" ∷ "f" ∷ "F" ∷ "false" ∷ "FALSE" ∷ "False" ∷ []

-- `strconv.ParseBool`; a text that it rejects counts as none.
unfoldable pub read_bool : Query → String → Option Bool → Option Bool
unfolding get contains
read_bool qs key default_value =
    let s = get qs key in
    if s == ""
    then default_value
    else if contains true_texts s
    then some true
    else if contains false_texts s
    then some false
    else default_value

-- `readSlugParam` and the 404 of its callers
unfoldable pub with_slug : String → (String → Handler) → Handler
with_slug slug next w = if slug == "" then (not_found_response, w) else next slug w

-- `readIDParam` and the 404 of its callers
unfoldable pub with_id : ⦃env : Env⦄ → String → (String → Handler) → Handler
with_id ⦃env⦄ id next w = if env.is_uuid id then next id w else (not_found_response, w)

-- The page, the size and the sort of a list request, with the validator behind the two numbers.
unfoldable pub read_filters : Query → ℤ → ℤ → String → List String → Validator → Filters × Validator
unfolding read_int read_string
read_filters qs page page_size sort safe_list v =
    let (p, v1) = read_int qs "page" page v in
    let (s, v2) = read_int qs "page_size" page_size v1 in
    (
      record {
        page = p;
        page_size = s;
        sort = read_string qs "sort" sort;
        sort_safe_list = safe_list;
      },
      v2,
    )

abbrev pub date_or : Option ℕ → String → ℕ → Validator → ℕ × Validator
date_or none key default_value v =
    (default_value, add_error key "invalid date format, expected YYYY-MM-DD" v)
date_or (some d) key default_value v = (d, v)

unfoldable pub read_date : Query → String → ℕ → Validator → ℕ × Validator
unfolding get parse_date add_error
read_date qs key default_value v =
    if get qs key == ""
    then (default_value, v)
    else date_or (parse_date (get qs key)) key default_value v
