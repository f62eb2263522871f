-- ===== src/Data/Tokens.antt =====
-- internal/data/tokens.go: one-time tokens, of which the tables keep the SHA-256 hash.
pub mod Laws
use gradconnect_api.Common.{
  ℕ, ◌+◌, String, Bool, not, ◌&&◌, Option, none, some, List, [], ◌∷◌, ◌++◌, ◌==◌, ltb, eqb, len,
  select, find_first, any, if◌then◌else◌,
}
use gradconnect_api.Store.{
  record_not_found, failure, Result, ok, err, Env, Db, Sql, Exec, tick, query, ◌>>=◌, ◌>>◌, pure,
}
use gradconnect_api.Store.Rows.{TokenRow}
use gradconnect_api.Validator.{Validator, check, ◌▸◌}

pub data Scope : Type 0 where
  activation password_reset authentication : Scope

pub record Token : Type 0 where
  pub plaintext : String
  pub hash : String
  pub user_id : String
  pub expiry : ℕ
  pub scope : Scope

-- `tableName`: every scope but the password reset shares one table.
unfoldable pub token_table : Scope → Db → List TokenRow
token_table password_reset db = db.password_reset_token
token_table _ db = db.email_verification_token

unfoldable pub set_token_table : Scope → List TokenRow → Db → Db
set_token_table password_reset rows db = record db { password_reset_token = rows }
set_token_table _ rows db = record db { email_verification_token = rows }

unfoldable pub validate_token_plaintext : String → Validator → Validator
validate_token_plaintext token v =
    v
    ▸ check (not (token == "")) "token" "must be provided"
    ▸ check (eqb (len token) 26) "token" "must be 26 bytes long"

module _ ⦃env : Env⦄ where
  abbrev drawn : Option String → String → ℕ → Scope → Result Token
  drawn none user_id expiry scope = err failure
  drawn (some plaintext) user_id expiry scope = ok (record {
    plaintext = plaintext;
    hash = env.sha256_hex plaintext;
    user_id = user_id;
    expiry = expiry;
    scope = scope;
  })

  -- `generateToken`
  unfoldable pub generate_token : String → ℕ → Scope → Exec Token
  generate_token user_id ttl scope w =
      (drawn (env.random_token w.queries) user_id (w.now + ttl) scope, tick w)

abbrev pub is_valid_token : ℕ → String → TokenRow → Bool
is_valid_token now hash t = t.token_hash == hash && ltb now t.expires_at

abbrev pub scan_user_id : Option TokenRow → Result String
scan_user_id none = err record_not_found
scan_user_id (some t) = ok t.user_id

unfoldable pub get_user_sql : Scope → String → Sql String
unfolding find_first token_table
get_user_sql scope hash now n db =
    (scan_user_id (find_first (is_valid_token now hash) (token_table scope db)), db)

unfoldable pub delete_sql : Scope → String → Sql (Unit {0})
unfolding select token_table set_token_table
delete_sql scope user_id now n db = (
  ok tt,
  set_token_table scope (select (λ t. not (t.user_id == user_id)) (token_table scope db)) db,
)

unfoldable pub insert_sql : Token → Sql (Unit {0})
unfolding any token_table set_token_table
insert_sql token now n db =
    if any (λ r. r.id == token.user_id) db.app_user
    then (
      ok tt,
      set_token_table token.scope
          (token_table token.scope db
            ++ record {
              user_id = token.user_id;
              token_hash = token.hash;
              expires_at = token.expiry;
            }
              ∷ [])
          db,
    )
    else (err failure, db)

module _ ⦃env : Env⦄ where
  -- `GetUserForToken`
  unfoldable pub get_user_for_token : Scope → String → Exec String
  unfolding query get_user_sql
  get_user_for_token scope token_plaintext =
      query (get_user_sql scope (env.sha256_hex token_plaintext))

  -- `DeleteAllForUser`
  unfoldable pub delete_all_for_user : Scope → String → Exec (Unit {0})
  unfolding query delete_sql
  delete_all_for_user scope user_id = query (delete_sql scope user_id)

  -- `New`: the user's earlier tokens of the table are deleted first.
  unfoldable pub new_token : String → ℕ → Scope → Exec Token
  unfolding generate_token query delete_sql insert_sql
  new_token user_id ttl scope = do
    token ← generate_token user_id ttl scope
    query (delete_sql scope user_id)
    query (insert_sql token)
    pure token
