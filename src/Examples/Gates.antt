-- ===== src/Examples/Gates.antt =====
-- Transactions and the middleware at concrete requests.
use gradconnect_api.Ratelimit.{allow}
use gradconnect_api.Data.Sessions.{second}
use gradconnect_api.App.Http.{Request}
use gradconnect_api.App.Middleware.{rate_limit_all, exempt_paths, enable_cors}
use gradconnect_api.App.Middleware.Origins.{enable_cors-trusted, rate_limit_all-new_cookie}
use gradconnect_api.Common.{
  List, String, ◌*◌, ◌+++◌, contains, false, ◌≡◌, refl, ◌⊎◌, inl, inr, false, some, [], ◌∷◌, In,
  find_first,
}
use gradconnect_api.Store.{World, Exec, failure, err, raise, ◌>>◌, finish, in_transaction}
use gradconnect_api.Store.Rows.{AppUser}
use gradconnect_api.Data.Users.{is_live}
use gradconnect_api.Data.Sessions.{is_current, delete_all_for_user}
use gradconnect_api.App.Http.{Handler, Principal, signed_in, respond, empty, server_error_response}
use gradconnect_api.App.Middleware.{authenticate, require_permission}
use gradconnect_api.App.Middleware.Laws.{
  IsRefusal, Permitted, require_permission-cases, Authenticated, authenticate-Authenticated,
  authenticate-soft_deleted,
}
use gradconnect_api.Examples.{test_env, alice, alice_row, alice_session, one_user, world, request}

abbrev answer_ok : Principal → Handler
answer_ok p w = (respond 200 empty, w)

require_permission-cases_example :
    IsRefusal world
      (require_permission ⦃env = test_env⦄ "review:submit" answer_ok (signed_in alice) world)
    ⊎ Permitted ⦃env = test_env⦄ "review:submit" answer_ok
        (signed_in alice)
        world
        (require_permission ⦃env = test_env⦄ "review:submit" answer_ok (signed_in alice) world)
require_permission-cases_example =
    require_permission-cases ⦃env = test_env⦄ "review:submit" answer_ok (signed_in alice) world

authenticate-Authenticated_example :
    Authenticated ⦃env = test_env⦄ request answer_ok world
      (authenticate ⦃env = test_env⦄ answer_ok request world)
authenticate-Authenticated_example =
    authenticate-Authenticated ⦃env = test_env⦄ request answer_ok world

-- The sessions are deleted, and then the callback fails.
abbrev half_done : Exec (Unit {0})
half_done = delete_all_for_user ⦃env = test_env⦄ "alice" >> raise failure

half_done_fails : (in_transaction ⦃env = test_env⦄ half_done world).0 ≡ err failure
unfolding in_transaction finish delete_all_for_user
half_done_fails = refl

-- The account has been deleted, and the session is still there.
abbrev after_deletion : World
after_deletion = record world {
  db = record one_user {
    app_user = record alice_row { user = record alice { deleted_at = some 3 } } ∷ [];
  };
}

session_found :
    find_first (is_current after_deletion.now "s1") after_deletion.db.session ≡ some alice_session
unfolding find_first
session_found = refl

no_live_row :
    (r : AppUser)
    → In r after_deletion.db.app_user
    → r.id ≡ alice_session.user_id
    → is_live r ≡ false
no_live_row r (inl e) own = rw e refl
no_live_row r (inr none_left) own = absurd none_left

authenticate-soft_deleted_example :
    ((authenticate ⦃env = test_env⦄ answer_ok request after_deletion).0 ≡ server_error_response)
    × ((authenticate ⦃env = test_env⦄ answer_ok request after_deletion).1.db ≡ after_deletion.db)
authenticate-soft_deleted_example =
    authenticate-soft_deleted ⦃env = test_env⦄ request answer_ok after_deletion "s1" "s1"
      alice_session (λ n. refl) refl refl session_found no_live_row

-- The path is not exempt, and the cookie is new to the limiter.
abbrev listing : Request
listing = record request {
  path = "/api/v1/opportunities";
  origin = "https://example.org";
  cookie = some "anything";
}

abbrev answer_any : Request → Handler
answer_any req w = (respond 200 empty, w)

not_exempt : contains exempt_paths listing.path ≡ false
unfolding contains
not_exempt = refl

rate_limit_all-new_cookie_example :
    rate_limit_all answer_any listing world
    ≡ answer_any listing (record world {
      limiter =
          (allow ("global:session:" +++ "anything") 100 (60 * second) world.now world.limiter).1;
    })
rate_limit_all-new_cookie_example =
    rate_limit_all-new_cookie answer_any listing world "anything" refl not_exempt refl

abbrev frontends : List String
frontends = "https://example.org" ∷ []

origin_is_allowed :
    (enable_cors frontends answer_any listing world).0.allow_origin ≡ some "https://example.org"
unfolding enable_cors
origin_is_allowed = refl

enable_cors-trusted_example :
    ("https://example.org" ≡ listing.origin) × In "https://example.org" frontends
enable_cors-trusted_example =
    enable_cors-trusted frontends answer_any listing world "https://example.org" (λ req w. refl)
      origin_is_allowed
