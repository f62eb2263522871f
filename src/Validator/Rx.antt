-- ===== src/Validator/Rx.antt =====
-- The regular expressions of internal/validator/validator.go, over code points, and a matcher for
-- the whole text (each pattern stands between `^` and `$`) by derivatives.
pub mod Correct
pub mod Shapes
pub mod Emails
use gradconnect_api.Common.{
  ℕ, zero, suc, String, Bool, true, false, not, ◌&&◌, ◌||◌, List, [], ◌∷◌, leb, eqb, if◌then◌else◌,
  codes,
}

pub data Rx : Type 0 where
  never eps : Rx
  chars : (ℕ → Bool) → Rx
  seq alt : Rx → Rx → Rx
  star : Rx → Rx

unfoldable pub nullable : Rx → Bool
nullable never = false
nullable eps = true
nullable (chars p) = false
nullable (seq a b) = nullable a && nullable b
nullable (alt a b) = nullable a || nullable b
nullable (star a) = true

-- What is left to match after the character `c`.
unfoldable pub deriv : ℕ → Rx → Rx
unfolding nullable
deriv c never = never
deriv c eps = never
deriv c (chars p) = if p c then eps else never
deriv c (seq a b) = if nullable a then alt (seq (deriv c a) b) (deriv c b) else seq (deriv c a) b
deriv c (alt a b) = alt (deriv c a) (deriv c b)
deriv c (star a) = seq (deriv c a) (star a)

unfoldable pub accepts : Rx → List ℕ → Bool
unfolding deriv nullable
accepts r [] = nullable r
accepts r (c ∷ s) = accepts (deriv c r) s

-- `r+`, `r?`, `r{0,n}` and a text
abbrev pub plus : Rx → Rx
plus r = seq r (star r)

abbrev pub optional : Rx → Rx
optional r = alt eps r

unfoldable pub at_most : ℕ → Rx → Rx
at_most zero r = eps
at_most (suc n) r = optional (seq r (at_most n r))

abbrev pub one : ℕ → Rx
one c = chars (eqb c)

abbrev pub literal : List ℕ → Rx
literal [] = eps
literal (c ∷ s) = seq (one c) (literal s)

abbrev pub one_of : List ℕ → ℕ → Bool
one_of [] c = false
one_of (d ∷ s) c = eqb d c || one_of s c

-- [a-z0-9], [a-zA-Z0-9], [a-zA-Z0-9-]
abbrev pub is_lower_alnum : ℕ → Bool
is_lower_alnum c = (leb b'a' c && leb c b'z') || (leb b'0' c && leb c b'9')

abbrev pub is_alnum : ℕ → Bool
is_alnum c = is_lower_alnum c || (leb b'A' c && leb c b'Z')

abbrev pub is_alnum_dash : ℕ → Bool
is_alnum_dash c = is_alnum c || eqb c b'-'

-- [a-zA-Z0-9.!#$%&'*+/=?^_`{|}~-]
abbrev pub is_local : ℕ → Bool
is_local c = is_alnum c || one_of (codes ".!#$%&'*+/=?^_`{|}~-") c

-- [a-zA-Z0-9](?:[a-zA-Z0-9-]{0,61}[a-zA-Z0-9])?
unfoldable pub label : Rx
unfolding at_most
label = seq (chars is_alnum) (optional (seq (at_most 61 (chars is_alnum_dash)) (chars is_alnum)))

unfoldable pub email_rx : Rx
unfolding label
email_rx = seq (plus (chars is_local)) (seq (one b'@') (seq label (star (seq (one b'.') label))))

-- ^[a-z0-9]+(-[a-z0-9]+)*$
unfoldable pub slug_rx : Rx
slug_rx = seq (plus (chars is_lower_alnum)) (star (seq (one b'-') (plus (chars is_lower_alnum))))

-- \s is [\t\n\f\r ]
abbrev pub is_space : ℕ → Bool
is_space c = one_of (9 ∷ 10 ∷ 12 ∷ 13 ∷ 32 ∷ []) c

-- ^https?://[^\s/$.?#].[^\s]*$, where `.` is any character but a newline
unfoldable pub url_rx : Rx
url_rx = seq (literal (codes "http")) (
    seq (optional (one b's')) (
      seq (literal (codes "://")) (
        seq (chars (λ c. not (is_space c || one_of (codes "/$.?#") c)))
          (seq (chars (λ c. not (eqb c 10))) (star (chars (λ c. not (is_space c))))))))

-- `rx.MatchString(value)` of Go's regexp, for an expression between ^ and $: the whole text matches.
unfoldable pub match_string : Rx → String → Bool
unfolding accepts
match_string rx value = accepts rx (codes value)

-- `Matches`
unfoldable pub matches : String → Rx → Bool
unfolding match_string
matches value rx = match_string rx value
