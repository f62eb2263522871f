-- ===== src/App/Http.antt =====
-- Requests and responses (internal/app/helpers.go, errors.go and context.go). A body is decoded JSON;
-- a message that prints a number or a name is represented by its parts.
use gradconnect_api.Common.{
  ◌≡◌, refl, ℕ, ◌/◌, String, Bool, true, false, Option, none, some, List, ltb, if◌then◌else◌,
}
use gradconnect_api.Common.Int.{ℤ, pos, negsuc}
use gradconnect_api.Store.{Err, record_not_found, Result, ok, err, Env, World, Exec}
use gradconnect_api.Store.Rows.{User, Session}
use gradconnect_api.Store.Content.{Review, ApplicationTracker, Employer}
use gradconnect_api.Filters.{Metadata}
use gradconnect_api.Data.Applications.{ApplicationTrackerListItem}
use gradconnect_api.Data.Bookmarks.{Bookmark}
use gradconnect_api.Data.Opportunities.{Opportunity}
use gradconnect_api.Data.Assessments.{Assessment}
use gradconnect_api.Data.Users.{zero_user}
use gradconnect_api.Data.Sessions.{second}

-- What a handler reads of the request line, the headers and the connection; `remote_ip` is the host
-- that net.SplitHostPort finds in RemoteAddr, `cookie` the value of the session_id cookie.
pub record Request : Type 0 where
  pub method : String
  pub path : String
  pub remote_ip : String
  pub user_agent : String
  pub cookie : Option String
  pub origin : String
  pub access_control_request_method : String

pub record Cookie : Type 0 where
  pub name : String
  pub value : String
  pub domain : String
  pub expires : ℕ
  pub max_age : ℤ
  pub http_only : Bool
  pub secure : Bool
  pub path : String

-- The errors of the decoder that `readJSON` tells apart.
pub data DecodeError : Type 0 where
  syntax_error : (offset : ℕ) → DecodeError
  unexpected_eof : DecodeError
  wrong_type_of_field : String → DecodeError
  wrong_type_at : (offset : ℕ) → DecodeError
  empty_body : DecodeError
  unknown_field : String → DecodeError
  body_too_large : (limit : ℕ) → DecodeError
  other_decode_error : DecodeError

-- The decoder on a request body: an error, or a value and whether the body ends behind it.
pub data Decoded (A : Type 0) : Type 0 where
  undecodable : DecodeError → Decoded A
  decoded : A → (ends : Bool) → Decoded A

-- The messages that `readJSON` returns.
pub data BodyError : Type 0 where
  badly_formed_at : (offset : ℕ) → BodyError
  badly_formed : BodyError
  incorrect_type_of : String → BodyError
  incorrect_type_at : (offset : ℕ) → BodyError
  must_not_be_empty : BodyError
  unknown_key : String → BodyError
  larger_than : (limit : ℕ) → BodyError
  single_value_only : BodyError
  decoder_message : BodyError

pub data Body : Type 0 where
  empty : Body
  error_text : String → Body
  error_fields : List (String × String) → Body
  error_body : BodyError → Body
  user_data : User → Body
  current_user_data : User → (permissions : List String) → Body
  message_data : String → Body
  message_text : String → Body
  review_submission_data : (id employer_id programme_name status : String) (created_at : ℕ) → Body
  review_data : Review → Body
  reviews_page : List Review → Metadata → Body
  application_data : ApplicationTracker → Body
  applications_page : List ApplicationTrackerListItem → Metadata → Body
  bookmarks_page : List Bookmark → Metadata → Body
  bookmark_created_data : (id opportunity_id : String) (created_at : ℕ) → Body
  employer_data : Employer → Body
  employers_page : List Employer → Metadata → Body
  opportunity_data : Opportunity → Body
  opportunities_page : List Opportunity → Metadata → Body
  assessment_data : Assessment → Body
  assessments_page : List Assessment → Metadata → Body

pub record Response : Type 0 where
  pub status : ℕ
  pub body : Body
  pub set_cookie : Option Cookie
  pub location : Option String
  pub retry_after : Option ℕ
  pub allow_origin : Option String

abbrev pub respond : ℕ → Body → Response
respond status body = record {
  status = status;
  body = body;
  set_cookie = none;
  location = none;
  retry_after = none;
  allow_origin = none;
}

-- What handles a request once its body is at hand.
abbrev pub Handler : Type 0
Handler = World → Response × World

abbrev pub on_result : {A : Type 0} → Result A → (Err → Handler) → (A → Handler) → Handler
on_result (ok a) failed done w = done a w
on_result (err e) failed done w = failed e w

-- `x, err := m(); if err != nil { …; return }`, and the rest of the handler.
unfoldable pub attempt : {A : Type 0} → Exec A → (Err → Handler) → (A → Handler) → Handler
attempt m failed done w = let (r, w') = m w in on_result r failed done w'

-- `errorResponse` and the functions over it. `writeJSON` does not fail on these bodies.
abbrev pub error_response : ℕ → String → Response
error_response status message = respond status (error_text message)

abbrev pub server_error_response : Response
server_error_response =
    error_response 500 "the server encountered a problem and could not process your request"

-- `app.serverErrorResponse(w, r, err)`
abbrev pub server_error : Err → Handler
server_error e w = (server_error_response, w)

abbrev pub failed_validation_response : List (String × String) → Response
failed_validation_response errors = respond 422 (error_fields errors)

abbrev pub not_found_response : Response
not_found_response = error_response 404 "requested resource was not found"

abbrev pub invalid_credentials_response : Response
invalid_credentials_response = error_response 401 "invalid authentication credentials"

abbrev pub authentication_required_response : Response
authentication_required_response =
    error_response 401 "you must be authenticated to access this resource"

-- `int(retryAfter.Seconds())`, at least 1
unfoldable pub retry_seconds : ℕ → ℕ
retry_seconds retry_after =
    let seconds = retry_after / second in if ltb seconds 1 then 1 else seconds

unfoldable pub rate_limit_exceeded_response : ℕ → Response
unfolding retry_seconds
rate_limit_exceeded_response retry_after =
    record (error_response 429 "rate limit exceeded, please try again later") {
      retry_after = some (retry_seconds retry_after);
    }

-- `switch` on a model's error: ErrRecordNotFound, or anything else
abbrev pub not_found_or_error : Err → Handler
not_found_or_error record_not_found w = (not_found_response, w)
not_found_or_error _ w = (server_error_response, w)

abbrev pub decode_message : DecodeError → BodyError
decode_message (syntax_error offset) = badly_formed_at offset
decode_message unexpected_eof = badly_formed
decode_message (wrong_type_of_field field) = incorrect_type_of field
decode_message (wrong_type_at offset) = incorrect_type_at offset
decode_message empty_body = must_not_be_empty
decode_message (unknown_field field) = unknown_key field
decode_message (body_too_large limit) = larger_than limit
decode_message other_decode_error = decoder_message

-- `readJSON`, and the 400 that every caller answers an error with.
unfoldable pub read_json : {A : Type 0} → Decoded A → (A → Handler) → Handler
read_json (undecodable e) handle w = (respond 400 (error_body (decode_message e)), w)
read_json (decoded a true) handle w = handle a w
read_json (decoded a false) handle w = (respond 400 (error_body single_value_only), w)

module _ ⦃env : Env⦄ where
  -- The cookie that signs a browser in, and the one that signs it out.
  abbrev pub session_cookie : Session → Cookie
  session_cookie session = record {
    name = "session_id";
    value = session.id;
    domain = env.cookie_domain;
    expires = session.expires_at;
    max_age = pos 0;
    http_only = true;
    secure = env.production;
    path = "/";
  }

  abbrev pub cleared_cookie : Cookie
  cleared_cookie = record {
    name = "session_id";
    value = "";
    domain = env.cookie_domain;
    expires = 0;
    max_age = negsuc 0;
    http_only = true;
    secure = env.production;
    path = "/";
  }

-- The user in a request's context. Go compares a pointer with that of `AnonymousUser`.
pub data Principal : Type 0 where
  anonymous : Principal
  signed_in : User → Principal

-- `contextGetUser`
abbrev pub context_user : Principal → User
context_user anonymous = zero_user
context_user (signed_in user) = user

pub on_result-cases :
    {A : Type 0} (P : Response × World → Type 0) (r s : Result A) (failed : Err → Handler)
    (done : A → Handler) (w : World)
    → s ≡ r
    → ((e : Err) → s ≡ err e → P (failed e w))
    → ((a : A) → s ≡ ok a → P (done a w))
    → P (on_result r failed done w)
on_result-cases P (ok a) s failed done w same on_err on_ok = on_ok a same
on_result-cases P (err e) s failed done w same on_err on_ok = on_err e same

-- What holds of both continuations, each with the result that leads to it, holds of the attempt.
pub attempt-cases :
    {A : Type 0} (P : Response × World → Type 0) (m : Exec A) (failed : Err → Handler)
    (done : A → Handler) (w : World)
    → ((e : Err) → (m w).0 ≡ err e → P (failed e (m w).1))
    → ((a : A) → (m w).0 ≡ ok a → P (done a (m w).1))
    → P (attempt m failed done w)
unfolding attempt
attempt-cases P m failed done w on_err on_ok =
    on_result-cases P (m w).0 (m w).0 failed done (m w).1 refl on_err on_ok

-- A body that `readJSON` rejects is answered with a 400 and nothing is done.
pub read_json-cases :
    {A : Type 0} (P : Response × World → Type 0) (body : Decoded A) (handle : A → Handler)
    (w : World)
    → ((e : BodyError) → P (respond 400 (error_body e), w))
    → ((a : A) → body ≡ decoded a true → P (handle a w))
    → P (read_json body handle w)
unfolding read_json
read_json-cases P (undecodable e) handle w bad good = bad (decode_message e)
read_json-cases P (decoded a true) handle w bad good = good a refl
read_json-cases P (decoded a false) handle w bad good = bad single_value_only
