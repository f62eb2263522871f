-- ===== src/Store/Transactions.antt =====
-- Transactions (internal/app/helpers.go, `inTransaction`) are all or nothing.
use gradconnect_api.Common.{◌⊎◌, ◌≡◌, refl, ap, arith, Bool-cases, inl, inr}
use gradconnect_api.Store.{
  Err, Result, ok, err, Env, Db, World, Exec, Sql, tick, query, finish, in_transaction, continue,
  ◌>>=◌,
}

module _ ⦃env : Env⦄ {A : Type 0} where
  finish-err :
      (saved : Db) (r : Result A) (w : World) {e : Err}
      → (finish saved r w).0 ≡ err e
      → (finish saved r w).1.db ≡ saved
  unfolding finish
  finish-err saved (ok a) w h = ground arith
  finish-err saved (err d) w h = refl

  finish-ok :
      (saved : Db) (r : Result A) (w : World) {a : A}
      → (finish saved r w).0 ≡ ok a
      → (r ≡ ok a) × ((finish saved r w).1.db ≡ w.db)
  unfolding finish
  finish-ok saved (ok b) w h = ground arith
  finish-ok saved (err d) w h = cc

  -- A transaction that returns an error, at BEGIN, in its body or at COMMIT, leaves the tables as
  -- they were.
  pub in_transaction-err :
      (fn : Exec A) (w : World) {e : Err}
      → (in_transaction fn w).0 ≡ err e
      → (in_transaction fn w).1.db ≡ w.db
  unfolding in_transaction
  in_transaction-err fn w h = elim (Bool-cases (env.fails w.queries)) [
    | inl f ↦ rw f refl
    | inr f ↦ rw f (finish-err w.db (fn (tick w)).0 (fn (tick w)).1 (rw f at h))
  ]

  -- A transaction that returns a value has run its body, which returned that value, and leaves the
  -- tables that the body left.
  pub in_transaction-ok :
      (fn : Exec A) (w : World) {a : A}
      → (in_transaction fn w).0 ≡ ok a
      → ((fn (tick w)).0 ≡ ok a) × ((in_transaction fn w).1.db ≡ (fn (tick w)).1.db)
  unfolding in_transaction
  in_transaction-ok fn w h = elim (Bool-cases (env.fails w.queries)) [
    | inl f ↦ absurd (cc (rw f at h))
    | inr f ↦ rw f (finish-ok w.db (fn (tick w)).0 (fn (tick w)).1 (rw f at h))
  ]

module _ ⦃env : Env⦄ {A : Type 0} where
  -- A query that returned a value ran its statement, and the world is the one that it left.
  pub query-ok :
      (f : Sql A) (w : World) {a : A}
      → (query f w).0 ≡ ok a
      → ((f w.now w.queries w.db).0 ≡ ok a)
        × ((query f w).1 ≡ record (tick w) { db = (f w.now w.queries w.db).1 })
  unfolding query
  query-ok f w h = elim (Bool-cases (env.fails w.queries)) [
    | inl e ↦ absurd (cc (rw e at h))
    | inr e ↦ (rw e at h, rw e refl)
  ]

  -- A statement that only reads leaves the tables alone, whether or not the driver fails it.
  pub query-read :
      (f : Sql A) (w : World) → (f w.now w.queries w.db).1 ≡ w.db → (query f w).1.db ≡ w.db
  unfolding query
  query-read f w h = ground arith

-- A query that returned an error was failed by the driver, or is the error of its statement.
pub query-err :
    ⦃env : Env⦄ {A : Type 0} (f : Sql A) (w : World) {e : Err}
    → (query f w).0 ≡ err e
    → ((query f w).1.db ≡ w.db)
      ⊎ (((f w.now w.queries w.db).0 ≡ err e) × ((query f w).1.db ≡ (f w.now w.queries w.db).1))
unfolding query
query-err ⦃env⦄ f w h = elim (Bool-cases (env.fails w.queries)) [
  | inl failed ↦ inl (rw failed refl)
  | inr ran ↦ inr (rw ran at h, rw ran refl)
]

-- A query leaves the tables alone, or as its statement does.
pub query-tables :
    ⦃env : Env⦄ {A : Type 0} (f : Sql A) (w : World)
    → ((query f w).1.db ≡ w.db) ⊎ ((query f w).1.db ≡ (f w.now w.queries w.db).1)
unfolding query
query-tables ⦃env⦄ f w = elim (Bool-cases (env.fails w.queries)) [
  | inl e ↦ inl (rw e refl)
  | inr e ↦ inr (rw e refl)
]

-- A query takes its number, and changes nothing of the world but the tables.
pub query-world :
    ⦃env : Env⦄ {A : Type 0} (f : Sql A) (w : World)
    → (query f w).1 ≡ record (tick w) { db = (query f w).1.db }
unfolding query
query-world f w = ground arith

-- A chain that returned a value went through its first step, and is the rest of it from there.
pub bind-ok :
    {A B : Type 0} (m : Exec A) (f : A → Exec B) (w : World) {b : B}
    → ((m >>= f) w).0 ≡ ok b
    → (a : A) × ((m w).0 ≡ ok a) × ((m >>= f) w ≡ f a (m w).1)
bind-ok {A} {B} m f w h = step (m w).0 refl
  where
    step : (r : Result A) → (m w).0 ≡ r → (a : A) × ((m w).0 ≡ ok a) × ((m >>= f) w ≡ f a (m w).1)
    step (ok a) e = (a, e, ap (λ r. continue r f (m w).1) e)
    step (err d) e = cc h

-- A chain stops at its first step with an error, or is the rest of it from there.
pub bind-cases :
    {A B : Type 0} (m : Exec A) (f : A → Exec B) (w : World)
    → ((d : Err) × ((m w).0 ≡ err d) × ((m >>= f) w ≡ (err d, (m w).1)))
      ⊎ ((a : A) × ((m w).0 ≡ ok a) × ((m >>= f) w ≡ f a (m w).1))
bind-cases {A} {B} m f w = step (m w).0 refl
  where
    step :
        (r : Result A)
        → (m w).0 ≡ r
        → ((d : Err) × ((m w).0 ≡ err d) × ((m >>= f) w ≡ (err d, (m w).1)))
          ⊎ ((a : A) × ((m w).0 ≡ ok a) × ((m >>= f) w ≡ f a (m w).1))
    step (ok a) e = inr (a, e, ap (λ r. continue r f (m w).1) e)
    step (err d) e = inl (d, e, ap (λ r. continue r f (m w).1) e)

-- What holds of the value and the world of an action that returned a value.
abbrev pub Ensures : {B : Type 0} → (B → World → Type 0) → Result B × World → Type 0
Ensures {B} Q out = (b : B) → out.0 ≡ ok b → Q b out.1

continue-Ensures :
    {A B : Type 0} (Q : B → World → Type 0) (f : A → Exec B) (r s : Result A) (w : World)
    → s ≡ r
    → ((a : A) → s ≡ ok a → Ensures Q (f a w))
    → Ensures Q (continue r f w)
continue-Ensures Q f (ok a) s w e h = h a e
continue-Ensures Q f (err d) s w e h = λ b e'. cc

-- The rule of a chain: what the first step ensures is all that the rest may use.
pub bind-Ensures :
    {A B : Type 0} (P : A → World → Type 0) (Q : B → World → Type 0) (m : Exec A) (f : A → Exec B)
    (w : World)
    → Ensures P (m w)
    → ((a : A) (w' : World) → P a w' → Ensures Q (f a w'))
    → Ensures Q ((m >>= f) w)
bind-Ensures P Q m f w first rest =
    continue-Ensures Q f (m w).0 (m w).0 (m w).1 refl (λ a e. rest a (m w).1 (first a e))

pub pure-Ensures :
    {B : Type 0} (Q : B → World → Type 0) (b : B) (w : World) → Q b w → Ensures Q (ok b, w)
pure-Ensures Q b w q c e = let same : b ≡ c = cc in rw (← same) q

-- What the body of a transaction ensures of its value and its tables, the transaction ensures.
pub in_transaction-Ensures :
    ⦃env : Env⦄ {A : Type 0} (Q : A → Db → Type 0) (fn : Exec A) (w : World)
    → Ensures (λ a w'. Q a w'.db) (fn (tick w))
    → Ensures (λ a w'. Q a w'.db) (in_transaction fn w)
in_transaction-Ensures Q fn w h a e =
    let (done, same) = in_transaction-ok fn w e in rw same (h a done)
