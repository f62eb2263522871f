-- ===== src/App/Auth/Account/Laws.antt =====
-- What deleting an account leaves behind (internal/app/auth.go, `deleteAccountHandler`).
use gradconnect_api.Common.{
  String, ◌≡◌, ◌≢◌, refl, ◌⊎◌, inl, inr, Bool, true, false, not, ◌==◌, eq_iff, arith, if-cases,
  select, In, In-select, not-eq-true, ne_of-eq-false, Bool-cases,
}
use gradconnect_api.Store.{Result, ok, Env, Db, World, tick, in_transaction}
use gradconnect_api.Store.Rows.{User, Session}
use gradconnect_api.Store.Transactions.{
  in_transaction-err, Ensures, bind-Ensures, in_transaction-Ensures,
}
use gradconnect_api.Data.Users
use gradconnect_api.Data.Users.Laws.{OnlyUser, IsDeleted, soft_delete_sql-OnlyUser}
use gradconnect_api.Data.Users.Passwords.{password_matches}
use gradconnect_api.Data.Sessions
use gradconnect_api.Data.Tasks
use gradconnect_api.Data.Tasks.{new_task}
use gradconnect_api.Data.Effects.{
  Wrote, soft_delete-ok, delete_sessions-ok, without_sessions, insert_task-ok, InsertedTask,
}
use gradconnect_api.App.Http.{
  Response, Decoded, decoded, read_json-cases, attempt-cases, on_result, on_result-cases,
  server_error, Principal, context_user,
}
use gradconnect_api.App.Auth.Steps.{name_payload}
use gradconnect_api.App.Auth.Account.{
  DeleteAccountInput, signed_out_response, close_account, commit_deletion, answer_owner,
  confirm_owner, delete_account_handler,
}

-- The account is closed, none of its sessions is left, every other row of either table stays, and
-- no token or permission has changed.
pub record IsClosed (user_id : String) (before after : Db) : Type 0 where
  pub users : OnlyUser user_id IsDeleted before.app_user after.app_user
  pub signed_out : (s : Session) → In s after.session → (s.user_id ≢ user_id) × In s before.session
  pub verifications : after.email_verification_token ≡ before.email_verification_token
  pub resets : after.password_reset_token ≡ before.password_reset_token
  pub permissions : after.user_permission ≡ before.user_permission

module _ ⦃env : Env⦄ where
  account-IsClosed :
      (user : User) (reason : String) (w w1 w2 w3 : World)
      → Wrote (λ db. (Users.soft_delete_sql user.id reason w.now w.queries db).1) w tt w1
      → Wrote (without_sessions (λ s. s.user_id == user.id)) w1 tt w2
      → InsertedTask "email:account_deleted" (name_payload user) w2 tt w3
      → IsClosed user.id w.db w3.db
  unfolding Users.soft_delete_sql Users.set_user
  account-IsClosed user reason w w1 w2 w3 e1 e2 e3 = record {
    users =
        let same : w3.db.app_user
            ≡ (Users.soft_delete_sql user.id reason w.now w.queries w.db).1.app_user =
          cc in
        rw same (soft_delete_sql-OnlyUser user.id reason w.now w.queries w.db);
    signed_out = λ s i.
        let same : w3.db.session ≡ select (λ s. not (s.user_id == user.id)) w.db.session = cc in
        let (there, other) =
          In-select (λ s. not (s.user_id == user.id)) w.db.session s (rw same at i) in
        (ne_of-eq-false s.user_id user.id (not-eq-true (s.user_id == user.id) other), there);
    verifications = cc;
    resets = cc;
    permissions = cc;
  }

  close_account-ok :
      (user : User) (reason : String) (w : World)
      → Ensures (λ _ after. IsClosed user.id w.db after.db) (close_account user reason w)
  unfolding close_account
  close_account-ok user reason w =
      let Q : Unit {0} → World → Type 0 = λ _ after. IsClosed user.id w.db after.db in
      bind-Ensures (Wrote (λ db. (Users.soft_delete_sql user.id reason w.now w.queries db).1) w) Q
        (Users.soft_delete user.id reason) _ w (soft_delete-ok user.id reason w)
        λ _ w1 h1.
          bind-Ensures (Wrote (without_sessions (λ s. s.user_id == user.id)) w1) Q
            (Sessions.delete_all_for_user user.id) _ w1 (delete_sessions-ok user.id w1)
            λ _ w2 h2. λ u e.
              account-IsClosed user reason w w1 w2
                (Tasks.insert "email:account_deleted" (name_payload user) w2).1 h1 h2
                (insert_task-ok "email:account_deleted" (name_payload user) w2 u e)

  -- Deleted and signed out, or another answer and no table changed.
  abbrev Deletion : String → Db → Response × World → Type 0
  Deletion user_id before (r, after) =
      ((r ≡ signed_out_response) × IsClosed user_id before after.db)
      ⊎ ((r.status ≢ 204) × (after.db ≡ before))

  commit_deletion-cases :
      (user : User) (reason : String) (w : World)
      → Deletion user.id w.db (commit_deletion user reason w)
  unfolding commit_deletion
  commit_deletion-cases user reason w =
      attempt-cases (Deletion user.id w.db) (in_transaction (close_account user reason))
        server_error (λ done w. (signed_out_response, w)) w
        (λ e h. inr ((λ s. omega arith), in_transaction-err (close_account user reason) w h))
        λ done h. inl (
          refl,
          in_transaction-Ensures (λ _ after. IsClosed user.id w.db after)
              (close_account user reason) w (close_account-ok user reason (tick w)) done h,
        )

  -- Who may delete: the owner of a password has to know it.
  abbrev IsOwner : User → DeleteAccountInput → Type 0
  IsOwner user input =
      (user.auth_provider ≢ "email")
      ⊎ (password_matches user.password_hash input.password ≡ ok true)

  -- A 204 for an owner whose account is closed, or another answer and no table changed.
  abbrev Closing : User → DeleteAccountInput → Db → Response × World → Type 0
  Closing user input before out =
      (IsOwner user input × (out.0 ≡ signed_out_response) × IsClosed user.id before out.1.db)
      ⊎ ((out.0.status ≢ 204) × (out.1.db ≡ before))

  owner-closes :
      (user : User) (input : DeleteAccountInput) (w : World)
      → IsOwner user input
      → Closing user input w.db (commit_deletion user input.reason w)
  owner-closes user input w owner = elim (commit_deletion-cases user input.reason w) [
    | inl done ↦ inl (owner, done.0, done.1)
    | inr left ↦ inr left
  ]

  answer_owner-cases :
      (user : User) (input : DeleteAccountInput) (w : World) (known : Bool)
      → password_matches user.password_hash input.password ≡ ok known
      → Closing user input w.db (answer_owner user input known w)
  answer_owner-cases user input w false e = inr ((λ s. omega arith), refl)
  answer_owner-cases user input w true e = owner-closes user input w (inr e)

  confirm_owner-cases :
      (user : User) (input : DeleteAccountInput) (w : World)
      → Closing user input w.db (confirm_owner user input w)
  unfolding confirm_owner
  confirm_owner-cases user input w =
      let P : Response × World → Type 0 = Closing user input w.db in
      let r : Result Bool = password_matches user.password_hash input.password in
      if-cases P (user.auth_provider == "email") _ (commit_deletion user input.reason w)
        (λ mail.
          if-cases P (input.password == "") _ (on_result r server_error (answer_owner user input) w)
            (λ none_given. inr ((λ s. omega arith), refl))
            (λ given.
              on_result-cases P r r server_error (answer_owner user input) w refl
                (λ e h. inr ((λ s. omega arith), refl)) (answer_owner-cases user input w)))
        (λ other. owner-closes user input w (inl (ne_of-eq-false user.auth_provider "email" other)))

  -- The outcome of a request to delete an account.
  abbrev pub AccountDeletion :
      Principal → Decoded DeleteAccountInput → World → Response × World → Type 0
  AccountDeletion p body w out =
      ((input : DeleteAccountInput) × (body ≡ decoded input true)
        × (input.confirmation ≡ "DELETE")
        × IsOwner (context_user p) input
        × (out.0 ≡ signed_out_response)
        × IsClosed (context_user p).id w.db out.1.db)
      ⊎ ((out.0.status ≢ 204) × (out.1.db ≡ w.db))

  -- A deletion is answered with a 204 only for an input that says DELETE, and, if the account has a
  -- password, gives it. Then every row of that user is marked deleted, none of their sessions is
  -- left, and no other row of a user, session, token or permission has changed; any other answer leaves
  -- all tables unchanged.
  pub delete_account_handler-AccountDeletion :
      (p : Principal) (body : Decoded DeleteAccountInput) (w : World)
      → AccountDeletion p body w (delete_account_handler p body w)
  unfolding delete_account_handler
  delete_account_handler-AccountDeletion p body w =
      let P : Response × World → Type 0 = AccountDeletion p body w in
      read_json-cases P body _ w (λ e. inr ((λ s. omega arith), refl))
        λ input read. elim (Bool-cases (input.confirmation == "DELETE")) [
          | inr no_confirmation ↦ rw no_confirmation (inr ((λ s. omega arith), refl))
          | inl confirmed ↦ rw confirmed (elim (confirm_owner-cases (context_user p) input w) [
            | inl (owner, same, closed) ↦
                inl (
                  input,
                  read,
                  (eq_iff input.confirmation "DELETE").0 confirmed,
                  owner,
                  same,
                  closed,
                )
            | inr left ↦ inr left
          ])
        ]
