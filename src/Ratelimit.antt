-- ===== src/Ratelimit.antt =====
-- internal/ratelimit/ratelimit.go: the fixed-window limiter in memory.
-- Times and durations are nanoseconds. Each method runs under the mutex, so it is one function; the
-- clock that it reads is its argument `now`. Limits are the callers' positive constants.
pub mod Laws
pub mod Window
mod Tests
use gradconnect_api.Common.{
  ℕ, suc, ◌+◌, ◌-◌, String, Bool, true, false, Option, none, some, ltb, leb, if◌then◌else◌, assign,
  remove,
}

pub record Entry : Type 0 where
  pub count : ℕ
  pub expires_at : ℕ

pub record MemoryLimiter : Type 0 where
  pub entries : String → Option Entry

-- `NewMemoryLimiter`, without the goroutine that it starts
abbrev pub new_memory_limiter : MemoryLimiter
new_memory_limiter = record { entries = λ _. none }

-- A decision: whether the request may pass, and how long to wait if not.
abbrev pub Verdict : Type 0
Verdict = Bool × ℕ

module _ (key : String) (limit window now : ℕ) (l : MemoryLimiter) where
  start_window : Verdict × MemoryLimiter
  start_window = (
    (true, 0),
    record { entries = assign key (record { count = 1; expires_at = now + window }) l.entries },
  )

  count_request : Entry → Verdict × MemoryLimiter
  unfolding start_window
  count_request e =
      if ltb e.expires_at now
      then start_window
      else if leb limit e.count
      then ((false, e.expires_at - now), l)
      else ((true, 0), record { entries = assign key (record e { count = suc e.count }) l.entries })

  unfoldable pub allow : Verdict × MemoryLimiter
  unfolding count_request start_window
  allow = elim (l.entries key) [ none ↦ start_window | some e ↦ count_request e ]

  -- `RecordFailure`
  unfoldable pub record_failure : Verdict × MemoryLimiter
  unfolding allow
  record_failure = allow

  inspect : Entry → Verdict
  inspect e =
      if ltb e.expires_at now
      then (true, 0)
      else if leb limit e.count
      then (false, e.expires_at - now)
      else (true, 0)

  unfoldable pub peek : Verdict
  unfolding inspect
  peek = elim (l.entries key) [ none ↦ (true, 0) | some e ↦ inspect e ]

unfoldable pub reset : String → MemoryLimiter → MemoryLimiter
reset key l = record { entries = remove key l.entries }

abbrev pub drop_expired : ℕ → Option Entry → Option Entry
drop_expired now none = none
drop_expired now (some e) = if ltb e.expires_at now then none else some e

-- One tick of `cleanupLoop`. It visits every key, and deletes by that key alone.
unfoldable pub cleanup : ℕ → MemoryLimiter → MemoryLimiter
cleanup now l = record { entries = λ k. drop_expired now (l.entries k) }
