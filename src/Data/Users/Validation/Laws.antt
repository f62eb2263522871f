-- ===== src/Data/Users/Validation/Laws.antt =====
-- The inputs that the account validators accept (internal/data/users.go), stated without them.
use gradconnect_api.Common.{
  ℕ, ◌+◌, ◌≤◌, String, ◌≡◌, ◌≢◌, refl, ◌↔◌, Bool, true, false, not, ◌&&◌, Option, none, some, arith,
  ◌==◌, eq_iff, len, length, leb, leb→le, leb_iff, Bool-cases, inl, inr,
}
use mathlib.Core.Bool.{and_assoc}
use gradconnect_api.Common.Int.{ℤ, pos, negsuc, lebℤ}
use gradconnect_api.Validator.{Validator, new, valid}
use gradconnect_api.Validator.Laws.{valid-check}
use gradconnect_api.Validator.Rx.{matches, email_rx}
use gradconnect_api.Data.Users.Validation.{
  CreateUserInput, ChangePasswordInput, validate_create_user_input, validate_change_password_input,
  validate_email, validate_password_plaintext, when_some, validate_graduation_year, at_most_255,
}

abbrev pub Holds : {A : Type 0} → (A → Type 0) → Option A → Type 0
Holds P none = Unit
Holds P (some a) = P a

abbrev pub IsGraduationYear : ℕ → ℤ → Type 0
IsGraduationYear year y = (n : ℕ) × (y ≡ pos n) × (1990 ≤ n) × (n ≤ year + 6)

pub record IsAcceptable (year : ℕ) (input : CreateUserInput) : Type 0 where
  pub first_name : (input.first_name ≢ "") × (len input.first_name ≤ 255)
  pub last_name : (input.last_name ≢ "") × (len input.last_name ≤ 255)
  pub email : matches input.email email_rx ≡ true
  pub password : (8 ≤ len input.password) × (len input.password ≤ 72)
  pub graduation_year : Holds (IsGraduationYear year) input.graduation_year
  pub degree_discipline : Holds (λ s. len s ≤ 255) input.degree_discipline
  pub target_industries : length input.target_industries ≤ 20
  pub preferred_locations : length input.preferred_locations ≤ 20

abbrev email_ok : String → Bool
email_ok email = not (email == "") && matches email email_rx

abbrev password_ok : String → Bool
password_ok p = not (p == "") && leb 8 (len p) && leb (len p) 72

abbrev year_ok : ℕ → ℤ → Bool
year_ok year y = lebℤ (pos 1990) y && lebℤ y (pos (year + 6))

abbrev all_some : {A : Type 0} → (A → Bool) → Option A → Bool
all_some p none = true
all_some p (some a) = p a

valid-email :
    (email : String) (v : Validator) → valid (validate_email email v) ≡ (valid v && email_ok email)
unfolding validate_email
valid-email email v = simp (valid-check, and_assoc)

valid-password :
    (password : String) (v : Validator)
    → valid (validate_password_plaintext password v) ≡ (valid v && password_ok password)
unfolding validate_password_plaintext
valid-password password v = simp (valid-check, and_assoc)

valid-year :
    (year : ℕ) (o : Option ℤ) (v : Validator)
    → valid (when_some o (validate_graduation_year year) v) ≡ (valid v && all_some (year_ok year) o)
valid-year year none v = ground arith
valid-year year (some y) v = simp (valid-check, and_assoc)

valid-at_most_255 :
    (key : String) (o : Option String) (v : Validator)
    → valid (when_some o (at_most_255 key) v) ≡ (valid v && all_some (λ s. leb (len s) 255) o)
valid-at_most_255 key none v = ground arith
valid-at_most_255 key (some s) v = valid-check _ _ _ v

abbrev create_ok : ℕ → CreateUserInput → Bool
create_ok year i =
    not (i.first_name == "")
    && not (i.last_name == "")
    && leb (len i.first_name) 255
    && leb (len i.last_name) 255
    && email_ok i.email
    && password_ok i.password
    && all_some (year_ok year) i.graduation_year
    && all_some (λ s. leb (len s) 255) i.degree_discipline
    && leb (length i.target_industries) 20
    && leb (length i.preferred_locations) 20

valid-create :
    (year : ℕ) (input : CreateUserInput)
    → valid (validate_create_user_input year input new) ≡ create_ok year input
unfolding validate_create_user_input
valid-create year input =
    simp (valid-check, valid-email, valid-password, valid-year, valid-at_most_255)
      (unfold valid in refl)

module _ {A : Type 0} (p : A → Bool) (P : A → Type 0) where
  all_some_sound : ((a : A) → p a ≡ true → P a) → (o : Option A) → all_some p o ≡ true → Holds P o
  all_some_sound f none h = tt
  all_some_sound f (some a) h = f a h

  all_some_complete :
      ((a : A) → P a → p a ≡ true) → (o : Option A) → Holds P o → all_some p o ≡ true
  all_some_complete f none h = refl
  all_some_complete f (some a) h = f a h

year_ok_sound : (year : ℕ) (y : ℤ) → year_ok year y ≡ true → IsGraduationYear year y
year_ok_sound year (pos n) h = (n, refl, ground arith, ground arith)
year_ok_sound year (negsuc n) h = absurd (ground arith)

year_ok_complete : (year : ℕ) (y : ℤ) → IsGraduationYear year y → year_ok year y ≡ true
year_ok_complete year y (n, e, lo, hi) = rw e (ground arith)

empty_is_no_email : matches "" email_rx ≡ false
unfolding matches email_rx
empty_is_no_email = refl

email_ok_of_matches : (email : String) → matches email email_rx ≡ true → email_ok email ≡ true
email_ok_of_matches email h = elim (Bool-cases (email == "")) [
  | inl e ↦
      let empty : matches "" email_rx ≡ true = rw ((eq_iff email "").0 e) at h in
      cc empty_is_no_email
  | inr e ↦ rw (e, h)
]

short_is_not_empty : (s : String) → 8 ≤ len s → (s == "") ≡ false
short_is_not_empty s h = elim (Bool-cases (s == "")) [
  | inl e ↦ let zero_long : 8 ≤ len "" = rw ((eq_iff s "").0 e) at h in absurd (omega arith)
  | inr e ↦ e
]

create_ok_sound :
    (year : ℕ) (input : CreateUserInput) → create_ok year input ≡ true → IsAcceptable year input
create_ok_sound year input h = record {
  first_name = ground (arith, eq_iff input.first_name "");
  last_name = ground (arith, eq_iff input.last_name "");
  email = ground arith;
  password = ground arith;
  graduation_year =
      all_some_sound (year_ok year) (IsGraduationYear year) (year_ok_sound year)
        input.graduation_year (ground arith);
  degree_discipline =
      all_some_sound (λ s. leb (len s) 255) (λ s. len s ≤ 255) (λ s. leb→le (len s) 255)
        input.degree_discipline (ground arith);
  target_industries = ground arith;
  preferred_locations = ground arith;
}

create_ok_complete :
    (year : ℕ) (input : CreateUserInput) → IsAcceptable year input → create_ok year input ≡ true
create_ok_complete year input a =
    let year_fits =
      all_some_complete (year_ok year) (IsGraduationYear year) (year_ok_complete year)
        input.graduation_year a.graduation_year in
    let degree_fits =
      all_some_complete (λ s. leb (len s) 255) (λ s. len s ≤ 255) (λ s. (leb_iff (len s) 255).1)
        input.degree_discipline a.degree_discipline in
    ground (
      arith,
      eq_iff input.first_name "",
      eq_iff input.last_name "",
      email_ok_of_matches input.email a.email,
      short_is_not_empty input.password a.password.0,
      year_fits,
      degree_fits,
      a.first_name,
      a.last_name,
      a.password,
      a.target_industries,
      a.preferred_locations,
    )

-- The validator of the registration accepts exactly the acceptable inputs.
pub validate_create_user_input_iff :
    (year : ℕ) (input : CreateUserInput)
    → (valid (validate_create_user_input year input new) ≡ true) ↔ IsAcceptable year input
validate_create_user_input_iff year input =
    rw valid-create (create_ok_sound year input, create_ok_complete year input)

-- The validator of the password change accepts an input exactly when the current password is given,
-- the new one has between 8 and 72 bytes, is repeated without a slip, and is another password.
pub validate_change_password_input_iff :
    (i : ChangePasswordInput)
    → (valid (validate_change_password_input i new) ≡ true) ↔ (
        (i.current_password ≢ "")
        × (8 ≤ len i.new_password)
        × (len i.new_password ≤ 72)
        × (i.new_password ≡ i.new_password_confirm)
        × (i.new_password ≢ i.current_password))
unfolding validate_change_password_input
validate_change_password_input_iff i = simp valid-check (
    unfold valid in
    (
      λ h. ground (
        arith,
        eq_iff i.current_password "",
        eq_iff i.new_password i.new_password_confirm,
        eq_iff i.new_password i.current_password,
      ),
      λ h. ground (
        arith,
        short_is_not_empty i.new_password h.1,
        eq_iff i.current_password "",
        eq_iff i.new_password i.new_password_confirm,
        eq_iff i.new_password i.current_password,
      ),
    ))
