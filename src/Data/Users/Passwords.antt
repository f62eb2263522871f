-- ===== src/Data/Users/Passwords.antt =====
-- internal/data/users.go: `Password.Set`, `HashPassword` and `Password.Matches`, over bcrypt.
use gradconnect_api.Common.{String, Bool, true, false, Option, none, some}
use gradconnect_api.Store.{failure, Result, ok, err, Env, Exec, same, different, unreadable, tick}

module _ ⦃env : Env⦄ where
  abbrev pub hashed : Option String → Result String
  hashed none = err failure
  hashed (some hash) = ok hash

  -- `HashPassword`, and the hash that `Set` stores. Each call draws a salt of its own.
  unfoldable pub hash_password : String → Exec String
  hash_password plaintext w = (hashed (env.hash_password w.queries plaintext), tick w)

  -- `Matches`: a mismatch is an answer, anything else that bcrypt reports is an error.
  unfoldable pub password_matches : Option String → String → Result Bool
  password_matches hash plaintext = elim (env.compare_hash hash plaintext) [
    | same ↦ ok true
    | different ↦ ok false
    | unreadable ↦ err failure
  ]
