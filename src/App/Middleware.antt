-- ===== src/App/Middleware.antt =====
-- internal/app/middleware.go: authentication, the permission gates, rate limits and CORS. A handler
-- behind `authenticate` takes the user in the request's context as a `Principal`.
pub mod Laws
pub mod Origins
use gradconnect_api.Common.{
  ℕ, ◌+◌, ◌*◌, String, Bool, true, false, not, ◌&&◌, Option, none, some, List, [], ◌∷◌, ◌==◌, ◌+++◌,
  is_some, contains, if◌then◌else◌,
}
use gradconnect_api.Ratelimit.{allow}
use gradconnect_api.Store.{Result, ok, err, Env, World}
use gradconnect_api.Store.Rows.{User, Session}
use gradconnect_api.Data.Users
use gradconnect_api.Data.Sessions
use gradconnect_api.Data.Sessions.{second}
use gradconnect_api.Data.Permissions
use gradconnect_api.App.Http.{
  Request, Response, Handler, respond, empty, error_response, server_error_response,
  authentication_required_response, rate_limit_exceeded_response, Principal, anonymous, signed_in,
  context_user, attempt,
}

-- A limiter call of a handler.
unfoldable pub limit_then : String → ℕ → ℕ → Handler → Handler
unfolding allow rate_limit_exceeded_response
limit_then key limit window next w =
    let ((allowed, retry_after), l) = allow key limit window w.now w.limiter in
    let w' = record w { limiter = l } in
    if allowed then next w' else (rate_limit_exceeded_response retry_after, w')

module _ ⦃env : Env⦄ where
  -- A row whose deleted_at is set: revoke the session and go on as anonymous.
  unfoldable pub with_user : (Principal → Handler) → Session → User → Handler
  with_user next session user w =
      if is_some user.deleted_at
      then next anonymous (Sessions.delete session.id w).1
      else next (signed_in user) w

  unfoldable pub with_session : (Principal → Handler) → Session → Handler
  with_session next session =
      attempt (Users.get_by_id session.user_id) (λ e w. (server_error_response, w))
        (with_user next session)

  unfoldable pub with_cookie : (Principal → Handler) → Option String → Handler
  with_cookie next none = next anonymous
  with_cookie next (some value) =
      attempt (Sessions.get_by_id value) (λ e. next anonymous) (with_session next)

  unfoldable pub authenticate : (Principal → Handler) → Request → Handler
  unfolding with_cookie
  authenticate next req = with_cookie next req.cookie

unfoldable pub require_authenticated_user : (Principal → Handler) → Principal → Handler
require_authenticated_user next anonymous w = (authentication_required_response, w)
require_authenticated_user next (signed_in user) w = next (signed_in user) w

abbrev pub check_verified : (Principal → Handler) → Principal → Handler
check_verified next p w =
    if not (context_user p).email_verified
    then (error_response 403 "your email must be verified to access this resource", w)
    else next p w

unfoldable pub require_verified_user : (Principal → Handler) → Principal → Handler
unfolding require_authenticated_user
require_verified_user next = require_authenticated_user (check_verified next)

module _ ⦃env : Env⦄ where
  -- The loop over the permissions stops at the first that is `code`.
  abbrev pub answer_permissions : String → (Principal → Handler) → Principal → List String → Handler
  answer_permissions code next p permissions w =
      if not (contains permissions code)
      then (
        error_response 403
            "your user account does not have the necessary permissions to access this resource",
        w,
      )
      else next p w

  unfoldable pub check_permission : String → (Principal → Handler) → Principal → Handler
  check_permission code next p =
      attempt (Permissions.get_all_for_user (context_user p).id) (λ e w. (server_error_response, w))
        (answer_permissions code next p)

  unfoldable pub require_permission : String → (Principal → Handler) → Principal → Handler
  unfolding require_verified_user
  require_permission code next = require_verified_user (check_permission code next)

unfoldable pub rate_limit_by_ip : ℕ → ℕ → (Request → Handler) → Request → Handler
unfolding limit_then
rate_limit_by_ip limit window next req w =
    limit_then ("ip:" +++ req.path +++ ":" +++ req.remote_ip) limit window (next req) w

-- Paths with limits of their own.
abbrev pub exempt_paths : List String
exempt_paths =
    "/api/v1/auth/register" ∷ "/api/v1/auth/login" ∷ "/api/v1/auth/forgot-password"
    ∷ "/api/v1/auth/resend-verification" ∷ []

abbrev pub global_key : Request → String
global_key req = elim req.cookie [
  | some value ↦ "global:session:" +++ value
  | none ↦ "global:ip:" +++ req.remote_ip
]

unfoldable pub rate_limit_all : (Request → Handler) → Request → Handler
unfolding limit_then contains
rate_limit_all next req w =
    if contains exempt_paths req.path
    then next req w
    else limit_then (global_key req) 100 (60 * second) (next req) w

abbrev with_origin : String → Response × World → Response × World
with_origin origin (r, w) = (record r { allow_origin = some origin }, w)

-- The headers that allow a trusted origin are written before the handler runs; a preflight is
-- answered without it.
unfoldable pub enable_cors : List String → (Request → Handler) → Request → Handler
unfolding contains
enable_cors trusted_origins next req w =
    if not (req.origin == "") && contains trusted_origins req.origin
    then if req.method == "OPTIONS" && not (req.access_control_request_method == "")
      then with_origin req.origin (respond 200 empty, w)
      else with_origin req.origin (next req w)
    else next req w
