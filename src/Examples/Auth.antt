-- ===== src/Examples/Auth.antt =====
-- The account endpoints at concrete requests.
use gradconnect_api.Common.{◌≡◌, refl, true, none, some, []}
use gradconnect_api.Common.Int.{pos}
use gradconnect_api.Validator.{check}
use gradconnect_api.Validator.Rx.{matches, email_rx}
use gradconnect_api.Store.{finish, in_transaction}
use gradconnect_api.Data.Users
use gradconnect_api.Data.Users.Passwords.{hash_password, password_matches}
use gradconnect_api.Data.Sessions
use gradconnect_api.Data.Tasks
use gradconnect_api.Data.Tokens
use gradconnect_api.Data.Tokens.{validate_token_plaintext}
use gradconnect_api.Data.Users.Validation.{
  CreateUserInput, LoginUserInput, ResetPasswordInput, validate_create_user_input, validate_email,
  validate_password_plaintext, validate_login_user_input,
}
use gradconnect_api.App.Http.{decoded, signed_in, attempt}
use gradconnect_api.App.Auth.Steps.{forget}
use gradconnect_api.App.Auth.Registration.{register_user_handler}
use gradconnect_api.App.Auth.Registration.Laws.{Registration}
use gradconnect_api.App.Auth.Login.{login_user_handler}
use gradconnect_api.App.Auth.Login.Outcome.{LoginOutcome, login_user_handler-LoginOutcome}
use gradconnect_api.App.Auth.Passwords.{reset_password_handler}
use gradconnect_api.App.Auth.Passwords.Laws.{PasswordReset, reset_password_handler-PasswordReset}
use gradconnect_api.App.Auth.Account.{DeleteAccountInput, delete_account_handler}
use gradconnect_api.App.Auth.Account.Laws.{AccountDeletion, delete_account_handler-AccountDeletion}
use gradconnect_api.Examples.{test_env, alice, world, request}

abbrev pub registration : CreateUserInput
registration = record {
  first_name = "Bob";
  last_name = "Stone";
  email = "bob@example.org";
  password = "battery staple";
  degree_discipline = none;
  graduation_year = some (pos 2027);
  target_industries = [];
  preferred_locations = [];
  preferences = "{}";
}

abbrev credentials : LoginUserInput
credentials = record { email = "alice@example.org"; password = "correct horse" }

abbrev new_password : ResetPasswordInput
new_password = record { token = "ABCDEFGHIJKLMNOPQRSTUVWXYZ"; new_password = "battery staple" }

abbrev farewell : DeleteAccountInput
farewell = record { password = "correct horse"; confirmation = "DELETE"; reason = "" }

registered :
    (register_user_handler ⦃env = test_env⦄ request (decoded registration true) world).0.status
    ≡ 201
unfolding register_user_handler validate_create_user_input check validate_password_plaintext
    validate_email matches email_rx attempt hash_password in_transaction finish Users.insert
    Tokens.new_token Tasks.insert Sessions.create
registered = refl

login_accepted :
    (login_user_handler ⦃env = test_env⦄ request (decoded credentials true) world).0.status ≡ 200
unfolding login_user_handler validate_login_user_input check matches email_rx attempt
    Users.get_by_email_including_deleted in_transaction finish Sessions.create forget
login_accepted = refl

login_user_handler-LoginOutcome_example :
    LoginOutcome ⦃env = test_env⦄
      (decoded credentials true)
      world
      (login_user_handler ⦃env = test_env⦄ request (decoded credentials true) world)
login_user_handler-LoginOutcome_example =
    login_user_handler-LoginOutcome ⦃env = test_env⦄ request (decoded credentials true) world

password_was_reset :
    (reset_password_handler ⦃env = test_env⦄ (decoded new_password true) world).0.status ≡ 200
unfolding reset_password_handler validate_password_plaintext check validate_token_plaintext attempt
    hash_password in_transaction finish Tokens.get_user_for_token Users.update_password
    Tokens.delete_all_for_user Sessions.delete_all_for_user
password_was_reset = refl

reset_password_handler-PasswordReset_example :
    PasswordReset ⦃env = test_env⦄
      (decoded new_password true)
      world
      (reset_password_handler ⦃env = test_env⦄ (decoded new_password true) world)
reset_password_handler-PasswordReset_example =
    reset_password_handler-PasswordReset ⦃env = test_env⦄ (decoded new_password true) world

account_deleted :
    (delete_account_handler ⦃env = test_env⦄
      (signed_in alice)
      (decoded farewell true)
      world).0.status
    ≡ 204
unfolding delete_account_handler password_matches attempt in_transaction finish Users.soft_delete
    Sessions.delete_all_for_user Tasks.insert
account_deleted = refl

delete_account_handler-AccountDeletion_example :
    AccountDeletion ⦃env = test_env⦄
      (signed_in alice)
      (decoded farewell true)
      world
      (delete_account_handler ⦃env = test_env⦄ (signed_in alice) (decoded farewell true) world)
delete_account_handler-AccountDeletion_example =
    delete_account_handler-AccountDeletion ⦃env = test_env⦄ (signed_in alice)
      (decoded farewell true) world
