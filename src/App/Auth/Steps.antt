-- ===== src/App/Auth/Steps.antt =====
-- What the handlers of internal/app/auth.go share: durations, task payloads, the answer to invalid
-- input and the answer that sets a cookie.
use gradconnect_api.Common.{ℕ, ◌*◌, String, true, some, [], ◌∷◌, if◌then◌else◌, ◌≡◌, if-cases}
use gradconnect_api.Ratelimit.{allow, peek, reset}
use gradconnect_api.Validator.{Validator, valid}
use gradconnect_api.Store.{Env, World}
use gradconnect_api.Store.Rows.{User, Session, Payload, fields}
use gradconnect_api.Data.Sessions.{second}
use gradconnect_api.App.Http.{
  Response, Handler, Body, respond, rate_limit_exceeded_response, failed_validation_response,
  session_cookie,
}

abbrev pub minute : ℕ
minute = 60 * second

abbrev pub hour : ℕ
hour = 60 * minute

-- `if !v.Valid() { failedValidationResponse; return }`
unfoldable pub when_valid : Validator → Handler → Handler
unfolding valid
when_valid v next w = if valid v then next w else (failed_validation_response v.errors, w)

-- `Peek`, and the 429 of a key that has used up its limit. It counts nothing.
unfoldable pub when_allowed : String → ℕ → ℕ → Handler → Handler
unfolding peek rate_limit_exceeded_response
when_allowed key limit window next w =
    let (allowed, retry_after) = peek key limit window w.now w.limiter in
    if allowed then next w else (rate_limit_exceeded_response retry_after, w)

-- `Allow`, for its count alone, and `Reset`
unfoldable pub count_failure : String → ℕ → ℕ → World → World
unfolding allow
count_failure key limit window w = record w { limiter = (allow key limit window w.now w.limiter).1 }

unfoldable pub forget : String → World → World
unfolding reset
forget key w = record w { limiter = reset key w.limiter }

-- The payloads of the tasks that send an email.
abbrev pub name_payload : User → Payload
name_payload user = fields (("user_email", user.email) ∷ ("first_name", user.first_name) ∷ [])

module _ ⦃env : Env⦄ where
  abbrev pub verify_payload : User → String → Payload
  verify_payload user plaintext = fields (
      ("base_url", env.base_url)
      ∷ ("user_email", user.email)
      ∷ ("first_name", user.first_name)
      ∷ ("activation_token", plaintext)
      ∷ [])

  abbrev pub reset_payload : User → String → Payload
  reset_payload user plaintext = fields (
      ("frontend_url", env.frontend_url)
      ∷ ("user_email", user.email)
      ∷ ("first_name", user.first_name)
      ∷ ("reset_token", plaintext)
      ∷ [])

  -- The answer to a sign-in.
  abbrev pub signed_in_response : ℕ → User → Session → Response
  signed_in_response status user session = record (respond status (Body.user_data user)) {
    set_cookie = some (session_cookie session);
  }

pub when_valid-cases :
    (P : Response × World → Type 0) (v : Validator) (next : Handler) (w : World)
    → P (failed_validation_response v.errors, w)
    → (valid v ≡ true → P (next w))
    → P (when_valid v next w)
unfolding when_valid
when_valid-cases P v next w bad good =
    if-cases P (valid v) (next w) (failed_validation_response v.errors, w) good (λ _. bad)

pub when_allowed-cases :
    (P : Response × World → Type 0) (key : String) (limit window : ℕ) (next : Handler) (w : World)
    → (P (rate_limit_exceeded_response (peek key limit window w.now w.limiter).1, w))
    → ((peek key limit window w.now w.limiter).0 ≡ true → P (next w))
    → P (when_allowed key limit window next w)
unfolding when_allowed
when_allowed-cases P key limit window next w bad good =
    let (allowed, retry_after) = peek key limit window w.now w.limiter in
    if-cases P allowed (next w) (rate_limit_exceeded_response retry_after, w) good (λ _. bad)
