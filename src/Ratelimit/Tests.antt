-- ===== src/Ratelimit/Tests.antt =====
-- Runs of the limiter at concrete inputs, and its theorems applied there.
use gradconnect_api.Common.{
  ◌==◌, if◌then◌else◌, ◌+◌, ◌≡◌, refl, false, none, some, [], ◌∷◌, min, arith, eq_iff, All,
}
use gradconnect_api.Ratelimit.{MemoryLimiter, new_memory_limiter, allow, cleanup}
use gradconnect_api.Ratelimit.Window.{
  Trace, request, sweep, look, requests, granted, verdicts, IsOrdinary, granted-window,
  verdicts-cleanup,
}

-- Five failures at time 0, in a window of 900.
abbrev five_failures : MemoryLimiter
five_failures = record {
  entries = λ k. if k == "a" then some (record { count = 5; expires_at = 900 }) else none;
}

sixth_is_denied : (allow "a" 5 900 10 five_failures).0 ≡ (false, 890)
unfolding allow
sixth_is_denied = refl

-- Three more requests for "a", one for "b", a peek and a sweep.
abbrev busy : Trace
busy =
    (1, request "a" 2 100)
    ∷ (2, request "b" 7 100)
    ∷ (3, look "a" 2 100)
    ∷ (4, sweep)
    ∷ (5, request "a" 2 100)
    ∷ (90, request "a" 2 100)
    ∷ []

busy-IsOrdinary : All (IsOrdinary "a" 2 (0 + 100)) busy
busy-IsOrdinary = ground (arith, eq_iff "b" "a")

granted-window_example :
    granted "a" ((0, request "a" 2 100) ∷ busy) new_memory_limiter ≡ min (1 + requests "a" busy) 2
granted-window_example =
    granted-window "a" 2 100 0 busy new_memory_limiter (omega arith) refl busy-IsOrdinary

two_granted : granted "a" ((0, request "a" 2 100) ∷ busy) new_memory_limiter ≡ 2
unfolding granted
two_granted = refl

verdicts-cleanup_example : verdicts busy (cleanup 1 five_failures) ≡ verdicts busy five_failures
verdicts-cleanup_example = verdicts-cleanup 1 busy five_failures (omega arith)
