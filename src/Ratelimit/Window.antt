-- ===== src/Ratelimit/Window.antt =====
-- Runs of the limiter (internal/ratelimit/ratelimit.go): the calls of any number of handlers and of
-- the sweeper, in the order in which they take the mutex.
use gradconnect_api.Common.{
  ℕ, ◌+◌, ◌-◌, ◌≤◌, ◌<◌, String, ◌≡◌, ◌≢◌, refl, Bool, true, false, Option, none, some, List, [],
  ◌∷◌, min, arith, eq_iff, eq_refl, ◌==◌, if◌then◌else◌, leb, All,
}
use gradconnect_api.Ratelimit.{
  Entry, MemoryLimiter, Verdict, allow, peek, reset, cleanup, drop_expired,
}

pub data Op : Type 0 where
  request : String → (limit window : ℕ) → Op
  look : String → (limit window : ℕ) → Op
  clear : String → Op
  sweep : Op

-- One call at a time, with its verdict.
unfoldable pub apply : ℕ → Op → MemoryLimiter → Verdict × MemoryLimiter
unfolding allow peek reset cleanup
apply now (request key limit window) l = allow key limit window now l
apply now (look key limit window) l = (peek key limit window now l, l)
apply now (clear key) l = ((true, 0), reset key l)
apply now sweep l = ((true, 0), cleanup now l)

-- A trace is a list of calls with the times at which they read the clock.
abbrev pub Trace : Type 0
Trace = List (ℕ × Op)

abbrev pub is_request : String → Op → Bool
is_request k (request key limit window) = key == k
is_request k _ = false

-- The requests for `k` that a trace makes, and those of them that are allowed.
unfoldable pub requests : String → Trace → ℕ
requests k [] = 0
requests k ((t, op) ∷ ops) = (if is_request k op then 1 else 0) + requests k ops

unfoldable pub granted : String → Trace → MemoryLimiter → ℕ
unfolding apply
granted k [] l = 0
granted k ((t, op) ∷ ops) l =
    let (v, l') = apply t op l in
    (if is_request k op then if v.0 then 1 else 0 else 0) + granted k ops l'

-- Every verdict of a trace.
unfoldable pub verdicts : Trace → MemoryLimiter → List Verdict
unfolding apply
verdicts [] l = []
verdicts ((t, op) ∷ ops) l = let (v, l') = apply t op l in v ∷ verdicts ops l'

-- A call that no window of `k` ends at: it is made by the deadline, it uses `k`'s limit, and it does
-- not clear `k`.
abbrev pub IsOrdinary : String → ℕ → ℕ → ℕ × Op → Type 0
IsOrdinary k limit deadline (t, request key lim window) = (t ≤ deadline) × (key ≡ k → lim ≡ limit)
IsOrdinary k limit deadline (t, look key lim window) = t ≤ deadline
IsOrdinary k limit deadline (t, clear key) = (t ≤ deadline) × (key ≢ k)
IsOrdinary k limit deadline (t, sweep) = t ≤ deadline

-- A counter that is live until `deadline`.
abbrev counter : ℕ → ℕ → Option Entry
counter c deadline = some (record { count = c; expires_at = deadline })

module _ (k : String) (limit deadline : ℕ) where
  -- What one call adds to the live counter of `k`.
  abbrev gain : ℕ → Op → ℕ
  gain c op = if is_request k op then if leb limit c then 0 else 1 else 0

  apply-live :
      (t : ℕ) (op : Op) (c : ℕ) (l : MemoryLimiter)
      → IsOrdinary k limit deadline (t, op)
      → l.entries k ≡ counter c deadline
      → (apply t op l).1.entries k ≡ counter (c + gain c op) deadline
  unfolding apply
  apply-live t (request key lim window) c l o h = ground (arith, eq_iff key k)
  apply-live t (look key lim window) c l o h = ground arith
  apply-live t (clear key) c l o h = ground (arith, eq_iff key k)
  apply-live t sweep c l o h = ground arith

  verdict-live :
      (t : ℕ) (op : Op) (c : ℕ) (l : MemoryLimiter)
      → IsOrdinary k limit deadline (t, op)
      → l.entries k ≡ counter c deadline
      → (if is_request k op then if (apply t op l).0.0 then 1 else 0 else 0) ≡ gain c op
  unfolding apply
  verdict-live t (request key lim window) c l o h = ground (arith, eq_iff key k)
  verdict-live t (look key lim window) c l o h = refl
  verdict-live t (clear key) c l o h = refl
  verdict-live t sweep c l o h = refl

  granted-live :
      (ops : Trace) (c : ℕ) (l : MemoryLimiter)
      → All (IsOrdinary k limit deadline) ops
      → l.entries k ≡ counter c deadline
      → granted k ops l ≡ min (requests k ops) (limit - c)
  unfolding granted requests
  granted-live [] c l o h = omega arith
  granted-live ((t, op) ∷ ops) c l (o, os) h =
      let ih = granted-live ops (c + gain c op) (apply t op l).1 os (apply-live t op c l o h) in
      ground (arith, ih, verdict-live t op c l o h)

-- From a key with no live counter, the requests for it that one window admits are exactly the first
-- `limit` of them, whatever the other keys, the peeks and the sweeper do in between. The window
-- starts with the first request, at `t`; the later calls come by `t + window`, with the same limit
-- and without clearing the key.
pub granted-window :
    (k : String) (limit window t : ℕ) (ops : Trace) (l : MemoryLimiter)
    → 0 < limit
    → drop_expired t (l.entries k) ≡ none
    → All (IsOrdinary k limit (t + window)) ops
    → granted k ((t, request k limit window) ∷ ops) l ≡ min (1 + requests k ops) limit
unfolding granted apply
granted-window k limit window t ops l pos free o =
    let ih =
      granted-live k limit (t + window) ops 1 (allow k limit window t l).1 o
        (unfold allow in ground (arith, eq_refl k)) in
    unfold allow in ground (arith, ih, eq_refl k)

-- Two limiters that agree on everything that has not expired at `t`.
abbrev SameLive : ℕ → MemoryLimiter → MemoryLimiter → Type 0
SameLive t a b = (k : String) → drop_expired t (a.entries k) ≡ drop_expired t (b.entries k)

-- A trace whose clock readings do not go back, from `t` on.
abbrev pub IsMonotone : ℕ → Trace → Type 0
IsMonotone t [] = Unit
IsMonotone t ((u, op) ∷ ops) = (t ≤ u) × IsMonotone u ops

SameLive-later : (t u : ℕ) (a b : MemoryLimiter) → t ≤ u → SameLive t a b → SameLive u a b
SameLive-later t u a b h s k = ground (arith, s k)

apply-SameLive_verdict :
    (t : ℕ) (op : Op) (a b : MemoryLimiter) → SameLive t a b → (apply t op a).0 ≡ (apply t op b).0
unfolding apply
apply-SameLive_verdict t (request key lim window) a b s = ground (arith, s key)
apply-SameLive_verdict t (look key lim window) a b s = ground (arith, s key)
apply-SameLive_verdict t (clear key) a b s = refl
apply-SameLive_verdict t sweep a b s = refl

apply-SameLive :
    (t : ℕ) (op : Op) (a b : MemoryLimiter)
    → SameLive t a b
    → SameLive t (apply t op a).1 (apply t op b).1
unfolding apply
apply-SameLive t (request key lim window) a b s k = ground (arith, s key, s k)
apply-SameLive t (look key lim window) a b s k = s k
apply-SameLive t (clear key) a b s k = ground (arith, s k)
apply-SameLive t sweep a b s k = ground (arith, s k)

verdicts-SameLive :
    (t : ℕ) (ops : Trace) (a b : MemoryLimiter)
    → IsMonotone t ops
    → SameLive t a b
    → verdicts ops a ≡ verdicts ops b
unfolding verdicts
verdicts-SameLive t [] a b m s = refl
verdicts-SameLive t ((u, op) ∷ ops) a b (h, m) s =
    let now = SameLive-later t u a b h s in
    cc (
      apply-SameLive_verdict u op a b now,
      verdicts-SameLive u ops (apply u op a).1 (apply u op b).1 m (apply-SameLive u op a b now),
    )

-- The sweeper cannot be observed: whatever calls follow, at times that do not go back behind the
-- sweep, they get the verdicts that they get without it.
pub verdicts-cleanup :
    (swept : ℕ) (ops : Trace) (l : MemoryLimiter)
    → IsMonotone swept ops
    → verdicts ops (cleanup swept l) ≡ verdicts ops l
verdicts-cleanup swept ops l m =
    verdicts-SameLive swept ops (cleanup swept l) l m (λ k. unfold cleanup in ground arith)
