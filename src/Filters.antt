-- ===== src/Filters.antt =====
-- internal/data/filters.go: sorting and pagination of list queries. `none` is a panic.
pub mod Laws
use Prim.Native.Char.{code}
use Prim.Native.String
use gradconnect_api.Common.{
  ℕ, zero, suc, ◌+◌, ◌-◌, ◌/◌, String, Bool, true, false, Option, none, some, List, [], ◌∷◌, ◌==◌,
  eqb, if◌then◌else◌,
}
use gradconnect_api.Common.Int.{ℤ, pos, ltbℤ, lebℤ, ◌-ℤ◌, ◌*ℤ◌}
use gradconnect_api.Validator.{Validator, check, ◌▸◌, permitted_value}

pub record Filters : Type 0 where
  pub page : ℤ
  pub page_size : ℤ
  pub sort : String
  pub sort_safe_list : List String

-- `strings.HasPrefix(s, "-")` and `strings.TrimPrefix(s, "-")`
abbrev pub has_dash : String → Bool
has_dash String.[] = false
has_dash (String.◌∷◌ c s) = eqb (code c) b'-'

abbrev pub trim_dash : String → String
trim_dash String.[] = ""
trim_dash (String.◌∷◌ c s) = if eqb (code c) b'-' then s else String.◌∷◌ c s

sort_column_among : String → List String → Option String
sort_column_among sort [] = none
sort_column_among sort (safe_value ∷ rest) =
    if sort == safe_value then some (trim_dash sort) else sort_column_among sort rest

unfoldable pub sort_column : Filters → Option String
unfolding sort_column_among
sort_column f = sort_column_among f.sort f.sort_safe_list

unfoldable pub sort_direction : Filters → String
sort_direction f = if has_dash f.sort then "DESC" else "ASC"

unfoldable pub validate_filters : Filters → Validator → Validator
validate_filters f v =
    v
    ▸ check (ltbℤ (pos 0) f.page) "page" "must be greater than zero"
    ▸ check (lebℤ f.page (pos 10000000)) "page" "must be a maximum of 10 million"
    ▸ check (ltbℤ (pos 0) f.page_size) "page_size" "must be greater than zero"
    ▸ check (lebℤ f.page_size (pos 100)) "page_size" "must be a maximum of 100"
    ▸ check (permitted_value f.sort f.sort_safe_list) "sort" "invalid sort value"

unfoldable pub limit : Filters → ℤ
limit f = f.page_size

unfoldable pub offset : Filters → ℤ
offset f = (f.page -ℤ pos 1) *ℤ f.page_size

pub record Metadata : Type 0 where
  pub current_page : ℕ
  pub page_size : ℕ
  pub first_page : ℕ
  pub last_page : ℕ
  pub total_records : ℕ

-- Its callers count rows and pass the page and the size of validated filters, so these are natural
-- numbers; a size of 0 divides by zero.
unfoldable pub calculate_metadata : ℕ → ℕ → ℕ → Option Metadata
calculate_metadata zero page page_size =
    some
      (record { current_page = 0; page_size = 0; first_page = 0; last_page = 0; total_records = 0 })
calculate_metadata total_records page page_size =
    if eqb page_size 0
    then none
    else some (record {
      current_page = page;
      page_size = page_size;
      first_page = 1;
      last_page = (total_records + page_size - 1) / page_size;
      total_records = total_records;
    })
