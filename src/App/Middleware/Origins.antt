-- ===== src/App/Middleware/Origins.antt =====
-- Which origins may read an answer (internal/app/middleware.go, `enableCORS`), and what the global rate
-- limit goes by (`rateLimitAll`).
use gradconnect_api.Common.{
  ℕ, ◌*◌, inl, inr, String, ◌≡◌, refl, true, false, not, ◌&&◌, none, some, List, ◌==◌, ◌+++◌, arith,
  contains, In, Bool-cases,
}
use gradconnect_api.Ratelimit.{MemoryLimiter, allow}
use gradconnect_api.Store.{World}
use gradconnect_api.Data.Sessions.{second}
use gradconnect_api.Data.Permissions.Laws.{contains_sound}
use gradconnect_api.App.Http.{Request, Handler}
use gradconnect_api.App.Middleware.{
  enable_cors, rate_limit_all, exempt_paths, global_key, limit_then,
}

-- A handler that leaves the header to the middleware.
abbrev pub IsSilent : (Request → Handler) → Type 0
IsSilent next = (req : Request) (w : World) → (next req w).0.allow_origin ≡ none

trusted :
    (origins : List String) (req : Request)
    → (not (req.origin == "") && contains origins req.origin) ≡ true
    → In req.origin origins
trusted origins req h = contains_sound origins req.origin (ground arith)

-- If the handlers do not write the header themselves, an answer that allows an origin allows that of
-- the request, and it is one of the trusted origins.
pub enable_cors-trusted :
    (origins : List String) (next : Request → Handler) (req : Request) (w : World) (o : String)
    → IsSilent next
    → (enable_cors origins next req w).0.allow_origin ≡ some o
    → (o ≡ req.origin) × In o origins
unfolding enable_cors
enable_cors-trusted origins next req w o silent h =
    elim (Bool-cases (not (req.origin == "") && contains origins req.origin)) [
      | inr e ↦ absurd (ground (arith, silent req w))
      | inl e ↦ let same : o ≡ req.origin = ground arith in (same, rw same (trusted origins req e))
    ]

allow-new :
    (key : String) (limit window now : ℕ) (l : MemoryLimiter)
    → l.entries key ≡ none
    → (allow key limit window now l).0 ≡ (true, 0)
unfolding allow
allow-new key limit window now l unseen = ground arith

-- A request that sends a session cookie whose value has not been seen lately passes the global limit,
-- whether or not the value names a session, and however many requests its address has made.
pub rate_limit_all-new_cookie :
    (next : Request → Handler) (req : Request) (w : World) (value : String)
    → req.cookie ≡ some value
    → contains exempt_paths req.path ≡ false
    → w.limiter.entries ("global:session:" +++ value) ≡ none
    → rate_limit_all next req w
      ≡ next req (record w {
        limiter = (allow ("global:session:" +++ value) 100 (60 * second) w.now w.limiter).1;
      })
unfolding rate_limit_all limit_then
rate_limit_all-new_cookie next req w value cookie path unseen =
    let key : global_key req ≡ "global:session:" +++ value = rw cookie refl in
    let opened : (allow ("global:session:" +++ value) 100 (60 * second) w.now w.limiter).0
        ≡ (true, 0) =
      allow-new ("global:session:" +++ value) 100 (60 * second) w.now w.limiter unseen in
    rw (path, key, opened) refl
