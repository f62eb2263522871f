-- ===== src/Data/Tokens/Laws.antt =====
-- Which token `GetUserForToken` of internal/data/tokens.go accepts.
use gradconnect_api.Common.{
  ℕ, ◌<◌, String, ◌≡◌, refl, inl, inr, Option, none, some, List, ◌==◌, eq_iff, arith, ltb→lt,
  find_first, find_first-some, In, Bool-cases,
}
use gradconnect_api.Store.{ok, Env, Db, World, tick}
use gradconnect_api.Store.Rows.{TokenRow}
use gradconnect_api.Store.Transactions.{query-ok, Ensures}
use gradconnect_api.Data.Tokens.{
  Scope, token_table, is_valid_token, scan_user_id, get_user_sql, get_user_for_token,
}

-- A row of the scope's table that has the hash and the user, and has not expired.
abbrev pub IssuedTo : Scope → String → String → ℕ → Db → Type 0
IssuedTo scope hash user_id now db =
    (t : TokenRow) × In t (token_table scope db)
    × (t.token_hash ≡ hash)
    × (t.user_id ≡ user_id)
    × (now < t.expires_at)

issued :
    (hash : String) (now : ℕ) (found : Option TokenRow) (rows : List TokenRow) (user_id : String)
    → find_first (is_valid_token now hash) rows ≡ found
    → scan_user_id found ≡ ok user_id
    → (t : TokenRow) × In t rows
      × (t.token_hash ≡ hash)
      × (t.user_id ≡ user_id)
      × (now < t.expires_at)
issued hash now none rows user_id e h = cc
issued hash now (some t) rows user_id e h =
    let (there, live) = find_first-some (is_valid_token now hash) rows {a = t} e in
    (
      t,
      there,
      elim (Bool-cases (t.token_hash == hash)) [
        | inl same ↦ (eq_iff t.token_hash hash).0 same
        | inr other ↦ absurd (ground arith)
      ],
      cc,
      ltb→lt now t.expires_at (ground arith),
    )

module _ ⦃env : Env⦄ where
  abbrev pub ReadToken : Scope → String → World → String → World → Type 0
  ReadToken scope token w user_id after =
      IssuedTo scope (env.sha256_hex token) user_id w.now w.db × (after ≡ tick w)

  pub get_user_for_token-ok :
      (scope : Scope) (token : String) (w : World)
      → Ensures (ReadToken scope token w) (get_user_for_token scope token w)
  unfolding get_user_for_token get_user_sql
  get_user_for_token-ok scope token w user_id h =
      let hash : String = env.sha256_hex token in
      let (read, same) = query-ok (get_user_sql scope hash) w h in
      (
        issued hash w.now (find_first (is_valid_token w.now hash) (token_table scope w.db))
            (token_table scope w.db) user_id refl read,
        same,
      )
