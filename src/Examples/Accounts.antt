-- ===== src/Examples/Accounts.antt =====
-- Activation, Google sign-in, profile and password endpoints at concrete requests.
use gradconnect_api.Common.{
  inl, inr, any, ℕ, List, ◌≤◌, ◌+◌, arith, find_first, String, ◌≡◌, refl, true, none, some, [], ◌∷◌,
}
use gradconnect_api.Data.Users
use gradconnect_api.Data.Permissions
use gradconnect_api.Data.Tasks
use gradconnect_api.Data.Sessions
use gradconnect_api.Store.{finish, in_transaction, World, ok, err, edit_conflict}
use gradconnect_api.Data.Users.{update_sql}
use gradconnect_api.Data.Users.Versions.{update_sql-stale}
use gradconnect_api.Data.Users.Validation.{
  validate_login_user_input, UpdateUserInput, ChangePasswordInput,
}
use gradconnect_api.App.Http.{decoded, signed_in, attempt}
use gradconnect_api.App.Auth.Activation.Laws.{Activation}
use gradconnect_api.App.Auth.Google.{Claims, GoogleAnswer, claims, google_auth_handler}
use gradconnect_api.App.Auth.Google.Laws.{GoogleOutcome, google_auth_handler-GoogleOutcome}
use gradconnect_api.App.Auth.Passwords.{forgot_password_handler}
use gradconnect_api.App.Auth.Passwords.Forgotten.{IsUp, blank, forgot_password_handler-blank}
use gradconnect_api.App.Auth.Login.Lockout.{
  Guess, window, login_at, guess_all, IsWrong, IsStored, login_user_handler-lockout,
}
use gradconnect_api.Validator.{valid, new, check}
use gradconnect_api.Validator.Rx.{matches, email_rx}
use gradconnect_api.Data.Users.Passwords.{password_matches}
use gradconnect_api.Data.Integrity.{create_session, execute}
use gradconnect_api.Data.Integrity.Links.{IsLinked}
use gradconnect_api.Data.Integrity.Statements.{execute-IsLinked}
use gradconnect_api.App.Profile.{update_user_handler}
use gradconnect_api.App.Profile.Laws.{ProfileUpdate, update_user_handler-ProfileUpdate}
use gradconnect_api.Examples.{test_env, alice, alice_row, one_user, world, request}

abbrev mailed_token : String
mailed_token = "ABCDEFGHIJKLMNOPQRSTUVWXYZ"

-- The token has been mailed, and not used.
abbrev unverified : World
unverified = record world {
  db = record one_user {
    email_verification_token =
        record {
          user_id = "alice";
          token_hash = "sha:ABCDEFGHIJKLMNOPQRSTUVWXYZ";
          expires_at = 1000;
        }
        ∷ [];
  };
}

abbrev carol : Claims
carol = record {
  email = "carol@example.org";
  email_verified = true;
  given_name = "Carol";
  family_name = "";
}

abbrev google : String → GoogleAnswer
google code = claims carol

carol_joins :
    (google_auth_handler ⦃env = test_env⦄ google request (decoded "code" true) world).0.status ≡ 201
unfolding google_auth_handler attempt Users.get_by_email_including_deleted in_transaction finish
    Users.insert Permissions.add_for_user Tasks.insert Sessions.create
carol_joins = refl

google_auth_handler-GoogleOutcome_example :
    GoogleOutcome ⦃env = test_env⦄ google
      (decoded "code" true)
      world
      (google_auth_handler ⦃env = test_env⦄ google request (decoded "code" true) world)
google_auth_handler-GoogleOutcome_example =
    google_auth_handler-GoogleOutcome ⦃env = test_env⦄ google request (decoded "code" true) world

abbrev new_name : UpdateUserInput
new_name = record {
  first_name = some "Alicia";
  last_name = none;
  degree_discipline = none;
  graduation_year = none;
  target_industries = none;
  preferred_locations = none;
  preferences = none;
}

update_user_handler-ProfileUpdate_example :
    ProfileUpdate ⦃env = test_env⦄
      (signed_in alice)
      (decoded new_name true)
      world
      (update_user_handler ⦃env = test_env⦄ (signed_in alice) (decoded new_name true) world)
update_user_handler-ProfileUpdate_example =
    update_user_handler-ProfileUpdate ⦃env = test_env⦄ (signed_in alice) (decoded new_name true)
      world

first_save : (update_sql alice 5 0 one_user).0 ≡ ok (record alice { version = 1 })
unfolding update_sql
first_save = refl

update_sql-stale_example :
    update_sql (record alice { first_name = "Al" }) 9 1 (update_sql alice 5 0 one_user).1
    ≡ (err edit_conflict, (update_sql alice 5 0 one_user).1)
update_sql-stale_example =
    update_sql-stale alice (record alice { first_name = "Al" }) 5 0 9 1 one_user first_save refl
      refl

abbrev new_secret : ChangePasswordInput
new_secret = record {
  current_password = "correct horse";
  new_password = "battery staple";
  new_password_confirm = "battery staple";
}

test_env-IsUp : IsUp ⦃env = test_env⦄
test_env-IsUp = record { queries = λ n. refl; random = λ n. (mailed_token, refl) }

forgot_password_handler-blank_example :
    (forgot_password_handler ⦃env = test_env⦄ (decoded "alice@example.org" true) world).0
    ≡ (forgot_password_handler ⦃env = test_env⦄
        (decoded "alice@example.org" true)
        (blank ⦃env = test_env⦄ world)).0
forgot_password_handler-blank_example =
    forgot_password_handler-blank ⦃env = test_env⦄ test_env-IsUp (decoded "alice@example.org" true)
      world

abbrev guess_at : ℕ → Guess
guess_at t = (t, request, record { email = "alice@example.org"; password = "password" })

abbrev right_at : ℕ → Guess
right_at t = (t, request, record { email = "alice@example.org"; password = "correct horse" })

alice-IsStored : IsStored ⦃env = test_env⦄ alice_row "alice@example.org" world
unfolding find_first
alice-IsStored = (refl, λ n. refl)

guess_at-IsWrong :
    (t : ℕ)
    → t ≤ 5 + window
    → IsWrong ⦃env = test_env⦄ alice_row "alice@example.org" (5 + window) (guess_at t)
unfolding validate_login_user_input check matches email_rx valid password_matches
guess_at-IsWrong t soon = (refl, refl, soon, refl)

right_is_acceptable : valid (validate_login_user_input (right_at 20).2 new) ≡ true
unfolding validate_login_user_input check matches email_rx valid
right_is_acceptable = refl

abbrev more_guesses : List Guess
more_guesses = guess_at 6 ∷ guess_at 7 ∷ guess_at 8 ∷ guess_at 9 ∷ []

login_user_handler-lockout_example :
    ((login_at ⦃env = test_env⦄
        (right_at 20)
        (guess_all ⦃env = test_env⦄ (guess_at 5 ∷ more_guesses) world)).0.status
      ≡ 429)
    × ((login_at ⦃env = test_env⦄
          (right_at 20)
          (guess_all ⦃env = test_env⦄ (guess_at 5 ∷ more_guesses) world)).1.db
        ≡ (guess_all ⦃env = test_env⦄ (guess_at 5 ∷ more_guesses) world).db)
login_user_handler-lockout_example =
    login_user_handler-lockout ⦃env = test_env⦄ alice_row "alice@example.org" (guess_at 5)
      more_guesses world (right_at 20) alice-IsStored refl (guess_at-IsWrong 5 (omega arith))
      (
        guess_at-IsWrong 6 (omega arith),
        (
          guess_at-IsWrong 7 (omega arith),
          (guess_at-IsWrong 8 (omega arith), (guess_at-IsWrong 9 (omega arith), tt)),
        ),
      )
      refl refl right_is_acceptable (omega arith)

one_user-IsLinked : IsLinked one_user
unfolding any
one_user-IsLinked = (
  λ s i. elim i [ inl e ↦ rw e refl | inr none_left ↦ absurd none_left ],
  λ t i. absurd i,
  λ t i. elim i [ inl e ↦ rw e refl | inr none_left ↦ absurd none_left ],
  λ p i. absurd i,
)

execute-IsLinked_example :
    IsLinked (execute ⦃env = test_env⦄ (create_session "alice" "192.0.2.1" "curl") 5 0 one_user)
execute-IsLinked_example =
    execute-IsLinked ⦃env = test_env⦄ (create_session "alice" "192.0.2.1" "curl") 5 0 one_user
      one_user-IsLinked
