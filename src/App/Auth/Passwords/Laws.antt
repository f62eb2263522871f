-- ===== src/App/Auth/Passwords/Laws.antt =====
-- What a password reset needs and leaves (internal/app/auth.go, `resetPasswordHandler`).
use gradconnect_api.Common.{
  ℕ, String, ◌≡◌, ◌≢◌, refl, ap, ◌⊎◌, inl, inr, true, not, Option, none, some, ◌==◌, arith, select,
  In, In-select, not-eq-true, ne_of-eq-false,
}
use gradconnect_api.Validator.{valid, new}
use gradconnect_api.Store.{Err, record_not_found, ok, Env, Db, World, Exec, tick, in_transaction}
use gradconnect_api.Store.Rows.{Session, TokenRow}
use gradconnect_api.Store.Transactions.{
  in_transaction-err, Ensures, bind-Ensures, in_transaction-Ensures,
}
use gradconnect_api.Data.Users
use gradconnect_api.Data.Users.Laws.{OnlyUser, HasNewPassword, update_password_sql-OnlyUser}
use gradconnect_api.Data.Users.Passwords.{hash_password, hashed}
use gradconnect_api.Data.Users.Validation.{ResetPasswordInput, validate_password_plaintext}
use gradconnect_api.Data.Sessions
use gradconnect_api.Data.Tokens
use gradconnect_api.Data.Tokens.{
  password_reset, validate_token_plaintext, is_valid_token, token_table,
}
use gradconnect_api.Data.Tokens.Laws.{IssuedTo, ReadToken, get_user_for_token-ok}
use gradconnect_api.Data.Effects.{
  Wrote, update_password-ok, delete_sessions-ok, without_sessions, delete_reset_tokens-ok,
}
use gradconnect_api.App.Http.{
  Response, Handler, Decoded, decoded, read_json-cases, attempt, attempt-cases, server_error,
}
use gradconnect_api.App.Auth.Steps.{when_valid-cases}
use gradconnect_api.App.Auth.Passwords.{
  replace_password, reset_failed, reset_response, use_token, reset_password_handler,
}

-- The tables after a reset: the user has the new password, no session and no reset token. Every other
-- user is as before, and so are the other tables.
pub record IsReset (user_id hash : String) (before after : Db) : Type 0 where
  pub users : OnlyUser user_id (HasNewPassword hash) before.app_user after.app_user
  pub signed_out : (s : Session) → In s after.session → (s.user_id ≢ user_id) × In s before.session
  pub spent :
      (t : TokenRow)
      → In t after.password_reset_token
      → (t.user_id ≢ user_id) × In t before.password_reset_token
  pub verifications : after.email_verification_token ≡ before.email_verification_token
  pub permissions : after.user_permission ≡ before.user_permission
  pub tasks : after.task_queue ≡ before.task_queue

module _ ⦃env : Env⦄ where
  password-IsReset :
      (user_id hash : String) (w w1 w2 w3 : World)
      → Wrote (λ db. (Users.update_password_sql user_id hash w.now w.queries db).1) w tt w1
      → Wrote
          (λ db. record db {
            password_reset_token = select (λ t. not (t.user_id == user_id)) db.password_reset_token;
          })
          w1
          tt
          w2
      → Wrote (without_sessions (λ s. s.user_id == user_id)) w2 tt w3
      → IsReset user_id hash w.db w3.db
  unfolding Users.update_password_sql Users.set_user
  password-IsReset user_id hash w w1 w2 w3 e1 e2 e3 = record {
    users =
        let same : w3.db.app_user
            ≡ (Users.update_password_sql user_id hash w.now w.queries w.db).1.app_user =
          cc in
        rw same (update_password_sql-OnlyUser user_id hash w.now w.queries w.db);
    signed_out = λ s i.
        let same : w3.db.session ≡ select (λ s. not (s.user_id == user_id)) w.db.session = cc in
        let (there, other) =
          In-select (λ s. not (s.user_id == user_id)) w.db.session s (rw same at i) in
        (ne_of-eq-false s.user_id user_id (not-eq-true (s.user_id == user_id) other), there);
    spent = λ t i.
        let same : w3.db.password_reset_token
            ≡ select (λ t. not (t.user_id == user_id)) w.db.password_reset_token =
          cc in
        let (there, other) =
          In-select (λ t. not (t.user_id == user_id)) w.db.password_reset_token t (rw same at i) in
        (ne_of-eq-false t.user_id user_id (not-eq-true (t.user_id == user_id) other), there);
    verifications = cc;
    permissions = cc;
    tasks = cc;
  }

  abbrev Replaced : String → String → ℕ → Db → Db → Type 0
  Replaced token hash now before after =
      (user_id : String) × IssuedTo password_reset (env.sha256_hex token) user_id now before
      × IsReset user_id hash before after

  replace_password-ok :
      (token hash : String) (w : World)
      → Ensures (λ _ after. Replaced token hash w.now w.db after.db) (replace_password token hash w)
  unfolding replace_password
  replace_password-ok token hash w =
      let Q : Unit {0} → World → Type 0 = λ _ after. Replaced token hash w.now w.db after.db in
      bind-Ensures (ReadToken password_reset token w) Q
        (Tokens.get_user_for_token password_reset token) _ w
        (get_user_for_token-ok password_reset token w)
        λ user_id w1 (read, same).
          bind-Ensures
            (Wrote (λ db. (Users.update_password_sql user_id hash w1.now w1.queries db).1) w1) Q
            (Users.update_password user_id hash) _ w1 (update_password-ok user_id hash w1)
            λ _ w2 h2.
              bind-Ensures
                (Wrote
                  (λ db. record db {
                    password_reset_token =
                        select (λ t. not (t.user_id == user_id)) db.password_reset_token;
                  })
                  w2)
                Q (Tokens.delete_all_for_user password_reset user_id) _ w2
                (delete_reset_tokens-ok user_id w2)
                λ _ w3 h3. λ u e. (
                  user_id,
                  read,
                  let unmoved : w1.db ≡ w.db = ap (λ w. w.db) same in
                      rw unmoved at (
                        password-IsReset user_id hash w1 w2 w3
                          (Sessions.delete_all_for_user user_id w3).1 h2 h3
                          (delete_sessions-ok user_id w3 u e)),
                )

  -- A reset that was done, or another answer and no table changed.
  abbrev Resetting : String → String → World → Response × World → Type 0
  Resetting token hash w out =
      ((out.0 ≡ reset_response) × Replaced token hash w.now w.db out.1.db)
      ⊎ ((out.0.status ≢ 200) × (out.1.db ≡ w.db))

  reset_failed-cases :
      (e : Err) (w : World) → ((reset_failed e w).0.status ≢ 200) × ((reset_failed e w).1 ≡ w)
  reset_failed-cases record_not_found w = ((λ s. omega arith), refl)
  reset_failed-cases _ w = ((λ s. omega arith), refl)

  use_token-cases :
      (token hash : String) (w : World) → Resetting token hash w (use_token token hash w)
  unfolding use_token
  use_token-cases token hash w =
      let body : Exec (Unit {0}) = replace_password token hash in
      attempt-cases (Resetting token hash w) (in_transaction body) reset_failed
        (λ done w. (reset_response, w)) w
        (λ e h.
          let (other, same) = reset_failed-cases e (in_transaction body w).1 in
          inr (other, rw same (in_transaction-err body w h)))
        λ done h. inl (
          refl,
          in_transaction-Ensures (λ _ after. Replaced token hash w.now w.db after) body w
              (replace_password-ok token hash (tick w)) done h,
        )

  pub drawn_hash :
      (drawn : Option String) {hash : String} → hashed drawn ≡ ok hash → drawn ≡ some hash
  drawn_hash none h = cc
  drawn_hash (some hash) h = cc

  -- The outcome of a request to reset a password.
  abbrev pub PasswordReset : Decoded ResetPasswordInput → World → Response × World → Type 0
  PasswordReset body w out =
      ((input : ResetPasswordInput) × (hash : String) × (body ≡ decoded input true)
        × (valid (
              validate_password_plaintext input.new_password
                (validate_token_plaintext input.token new))
            ≡ true)
        × (env.hash_password w.queries input.new_password ≡ some hash)
        × (out.0 ≡ reset_response)
        × Replaced input.token hash w.now w.db out.1.db)
      ⊎ ((out.0.status ≢ 200) × (out.1.db ≡ w.db))

  -- A reset is answered with a 200 only if the hash of the token given is that of a row of the reset
  -- table that has not expired. Then the user of that row has the hash of the new password, no session
  -- and no reset token; every other user, session, token, permission and task is as before. Any other
  -- answer leaves all tables unchanged.
  pub reset_password_handler-PasswordReset :
      (body : Decoded ResetPasswordInput) (w : World)
      → PasswordReset body w (reset_password_handler body w)
  unfolding reset_password_handler hash_password
  reset_password_handler-PasswordReset body w =
      let P : Response × World → Type 0 = PasswordReset body w in
      read_json-cases P body _ w (λ e. inr ((λ s. omega arith), refl))
        λ input read.
          let v =
            validate_password_plaintext input.new_password
              (validate_token_plaintext input.token new) in
          let next : Handler =
            attempt (hash_password input.new_password) server_error (use_token input.token) in
          when_valid-cases P v next w (inr ((λ s. omega arith), refl)) λ accepted.
            attempt-cases P (hash_password input.new_password) server_error (use_token input.token)
              w (λ e h. inr ((λ s. omega arith), refl))
              λ hash h. elim (use_token-cases input.token hash (tick w)) [
                | inl (same, replaced) ↦ inl (
                  input,
                  hash,
                  read,
                  accepted,
                  drawn_hash (env.hash_password w.queries input.new_password) h,
                  same,
                  replaced,
                )
                | inr left ↦ inr left
              ]
