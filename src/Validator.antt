-- ===== src/Validator.antt =====
-- internal/validator/validator.go: the accumulator of field errors, and the patterns that it knows.
pub mod Rx
pub mod Laws
use gradconnect_api.Common.{
  ℕ, zero, suc, String, Bool, true, false, not, Option, none, some, List, [], ◌∷◌, length, lookup,
  contains, eqb, if◌then◌else◌, codes,
}

pub record Validator : Type 0 where
  pub errors : List (String × String)

-- `New`
abbrev pub new : Validator
new = record { errors = [] }

unfoldable pub valid : Validator → Bool
valid v = eqb (length v.errors) 0

-- A field keeps its first message.
unfoldable pub add_error : String → String → Validator → Validator
add_error key message v = elim (lookup key v.errors) [
  | none ↦ record { errors = (key, message) ∷ v.errors }
  | some _ ↦ v
]

unfoldable pub check : Bool → String → String → Validator → Validator
unfolding add_error
check ok key message v = if ok then v else add_error key message v

-- `v.Check(…); v.Check(…)`: the receiver is threaded from left to right.
infixl 20 ◌▸◌
abbrev pub ◌▸◌ : Validator → (Validator → Validator) → Validator
v ▸ f = f v

-- `PermittedValue`, at texts
unfoldable pub permitted_value : String → List String → Bool
unfolding contains
permitted_value value permitted_values = contains permitted_values value
