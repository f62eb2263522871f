-- ===== src/App/Profile.antt =====
-- internal/app/users.go: `getCurrentUserHandler` and `updateUserHandler`.
pub mod Laws
use gradconnect_api.Common.{ℕ, String, Bool, true, Option, none, some, List, or_keep, or_keep_some}
use gradconnect_api.Validator.{new}
use gradconnect_api.Store.{Err, edit_conflict, Env, World}
use gradconnect_api.Store.Rows.{User}
use gradconnect_api.Data.Users
use gradconnect_api.Data.Users.Validation.{UpdateUserInput, validate_update_user_input}
use gradconnect_api.Data.Permissions
use gradconnect_api.App.Http.{
  Response, Handler, respond, user_data, current_user_data, Decoded, read_json, attempt,
  error_response, server_error, server_error_response, Principal, context_user,
}
use gradconnect_api.App.Auth.Steps.{when_valid}

-- The email is not among the fields.
abbrev pub apply_input : UpdateUserInput → User → User
apply_input input user = record user {
  first_name = or_keep input.first_name user.first_name;
  last_name = or_keep input.last_name user.last_name;
  degree_discipline = or_keep_some input.degree_discipline user.degree_discipline;
  graduation_year = or_keep_some input.graduation_year user.graduation_year;
  target_industries = or_keep input.target_industries user.target_industries;
  preferred_locations = or_keep input.preferred_locations user.preferred_locations;
  preferences = or_keep input.preferences user.preferences;
}

abbrev pub update_failed : Err → Handler
update_failed edit_conflict w = (error_response 409 "edit conflict, please retry", w)
update_failed _ w = (server_error_response, w)

module _ ⦃env : Env⦄ where
  unfoldable pub get_current_user_handler : Principal → Handler
  get_current_user_handler p =
      let user = context_user p in
      attempt (Permissions.get_all_for_user user.id) server_error
        (λ permissions w. (respond 200 (current_user_data user permissions), w))

  unfoldable pub save_profile : User → Handler
  save_profile user =
      attempt (Users.update user) update_failed (λ saved w. (respond 200 (user_data saved), w))

  unfoldable pub update_user_handler : Principal → Decoded UpdateUserInput → Handler
  unfolding read_json when_valid save_profile
  update_user_handler p body = read_json body λ input w.
      when_valid (validate_update_user_input w.year input new)
        (save_profile (apply_input input (context_user p))) w
