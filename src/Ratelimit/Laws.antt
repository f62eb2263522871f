-- ===== src/Ratelimit/Laws.antt =====
-- What one call of the limiter does (internal/ratelimit/ratelimit.go).
use gradconnect_api.Common.{ℕ, ◌+◌, String, ◌≡◌, ◌≢◌, true, false, arith, eq_iff}
use gradconnect_api.Ratelimit.{MemoryLimiter, allow, peek}

-- `Peek` announces exactly what `Allow` would decide, the time to wait included.
pub peek-eq-allow :
    (key : String) (limit window now : ℕ) (l : MemoryLimiter)
    → peek key limit window now l ≡ (allow key limit window now l).0
unfolding peek allow
peek-eq-allow key limit window now l = ground arith

-- A call for one key leaves every other key's counter alone.
pub allow-entries_ne :
    (key other : String) (limit window now : ℕ) (l : MemoryLimiter)
    → key ≢ other
    → (allow key limit window now l).1.entries other ≡ l.entries other
unfolding allow
allow-entries_ne key other limit window now l ne = ground (arith, eq_iff key other)

-- A denial says how long the window still lasts, and that wait is enough: one nanosecond after it
-- the same call is allowed.
pub allow_after_wait :
    (key : String) (limit window now : ℕ) (l : MemoryLimiter)
    → (allow key limit window now l).0.0 ≡ false
    → (allow key limit window (now + (allow key limit window now l).0.1 + 1) l).0 ≡ (true, 0)
unfolding allow
allow_after_wait key limit window now l h = ground arith
