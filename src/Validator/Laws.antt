-- ===== src/Validator/Laws.antt =====
-- The accumulator of internal/validator/validator.go: when it is valid, and which messages it holds.
use gradconnect_api.Common.{
  ◌∙◌, String, ◌≡◌, refl, Bool, true, false, ◌&&◌, Option, none, some, List, [], ◌∷◌, arith, eq_iff,
  ◌==◌, lookup, if◌then◌else◌,
}
use gradconnect_api.Validator.{Validator, new, valid, add_error, check, ◌▸◌}

pub valid-add_error :
    (key message : String) (es : List (String × String))
    → valid (add_error key message (record { errors = es })) ≡ false
unfolding valid add_error lookup
valid-add_error key message [] = refl
valid-add_error key message (x ∷ es) = ground arith

-- A check that fails makes the validator invalid for good, and one that holds changes nothing.
pub valid-check :
    (ok : Bool) (key message : String) (v : Validator)
    → valid (v ▸ check ok key message) ≡ (valid v && ok)
unfolding check
valid-check true key message v = ground arith
valid-check false key message v = ground (arith, valid-add_error key message v.errors)

lookup-add_error :
    (k key message : String) (v : Validator)
    → lookup k (add_error key message v).errors ≡ (
        if key == k
        then elim (lookup k v.errors) [ none ↦ some message | some m ↦ some m ]
        else lookup k v.errors)
unfolding add_error lookup
lookup-add_error k key message v = ground (arith, eq_iff key k)

-- A sequence of checks, as the input validators make them.
abbrev pub Check : Type 0
Check = Bool × String × String

unfoldable pub run : List Check → Validator → Validator
run [] v = v
run ((ok, key, message) ∷ cs) v = run cs (v ▸ check ok key message)

-- The first failing check of a field.
unfoldable pub first_failure : String → List Check → Option String
first_failure k [] = none
first_failure k ((ok, key, message) ∷ cs) =
    let rest = first_failure k cs in if ok then rest else if key == k then some message else rest

abbrev or_else : Option String → Option String → Option String
or_else none o = o
or_else (some m) o = some m

run-lookup :
    (k : String) (cs : List Check) (v : Validator)
    → lookup k (run cs v).errors ≡ or_else (lookup k v.errors) (first_failure k cs)
unfolding run first_failure check
run-lookup k [] v = ground arith
run-lookup k ((true, key, message) ∷ cs) v = run-lookup k cs v
run-lookup k ((false, key, message) ∷ cs) v =
    run-lookup k cs (add_error key message v) ∙ ground (arith, lookup-add_error k key message v)

-- After any sequence of checks on a new validator, the message of a field is that of the first check
-- of that field that failed; a field with no failed check has no message.
pub lookup-run : (k : String) (cs : List Check) → lookup k (run cs new).errors ≡ first_failure k cs
unfolding lookup
lookup-run k cs = run-lookup k cs new
