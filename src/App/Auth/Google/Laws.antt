-- ===== src/App/Auth/Google/Laws.antt =====
-- Whom a Google sign-in lets in (internal/app/auth.go, `googleAuthHandler`).
use gradconnect_api.Common.{
  String, ◌≡◌, ◌≢◌, refl, ◌⊎◌, inl, inr, true, false, not, ◌||◌, ◌==◌, arith, eq_iff, if-cases,
  ne_of-eq-false, not-eq-false,
}
use gradconnect_api.Store.{
  Err, record_not_found, duplicate_email, Env, Db, World, Exec, tick, in_transaction,
}
use gradconnect_api.Store.Rows.{User, Session}
use gradconnect_api.Store.Transactions.{in_transaction-err, in_transaction-Ensures}
use gradconnect_api.Data.Users
use gradconnect_api.App.Http.{Request, Response, Decoded, decoded, read_json-cases, attempt-cases}
use gradconnect_api.App.Auth.Steps.{signed_in_response}
use gradconnect_api.App.Auth.Login.SignIn.{IsSignedIn, sign_in-cases}
use gradconnect_api.App.Auth.Login.Outcome.{IsAccountOf, lookup_unmoved, lookup_found}
use gradconnect_api.App.Auth.Google.{
  Claims, GoogleAnswer, claims, google_user, creation_failed, create_google_account, join,
  unknown_user, return_user, accept_claims, answer_google, google_auth_handler,
}
use gradconnect_api.App.Auth.Google.Join.{IsJoined, Joined, create_google_account-ok}

module _ ⦃env : Env⦄ where
  -- What the claims of an ID token lead to.
  abbrev Admission : Claims → Db → Response × World → Type 0
  Admission c before out =
      ((user : User) × (session : Session) × (out.0 ≡ signed_in_response 201 user session)
        × IsJoined c before out.1.db user session)
      ⊎ (((user : User) × (session : Session) × IsAccountOf user c.email before
            × (user.auth_provider ≡ "google")
            × (out.0 ≡ signed_in_response 200 user session)
            × IsSignedIn user session before out.1.db)
          ⊎ ((out.0.status ≢ 200) × (out.0.status ≢ 201) × (out.1.db ≡ before)))

  creation_failed-cases :
      (e : Err) (w : World)
      → ((creation_failed e w).0.status ≢ 200)
        × ((creation_failed e w).0.status ≢ 201)
        × ((creation_failed e w).1 ≡ w)
  creation_failed-cases duplicate_email w = ((λ s. omega arith), (λ s. omega arith), refl)
  creation_failed-cases _ w = ((λ s. omega arith), (λ s. omega arith), refl)

  join-Admission : (req : Request) (c : Claims) (w : World) → Admission c w.db (join req c w)
  unfolding join
  join-Admission req c w =
      let body : Exec (User × Session) = create_google_account req (google_user c) in
      attempt-cases (Admission c w.db) (in_transaction body) creation_failed
        (λ done w. (signed_in_response 201 done.0 done.1, w)) w
        (λ e h.
          let (a, b, same) = creation_failed-cases e (in_transaction body w).1 in
          inr (inr (a, b, rw same (in_transaction-err body w h))))
        λ done h. inl (
          done.0,
          done.1,
          refl,
          in_transaction-Ensures (Joined c w.db) body w (create_google_account-ok req c (tick w))
              done h,
        )

  return_user-Admission :
      (req : Request) (c : Claims) (user : User) (w : World)
      → IsAccountOf user c.email w.db
      → Admission c w.db (return_user req user w)
  unfolding return_user
  return_user-Admission req c user w account =
      if-cases (Admission c w.db) (not (user.auth_provider == "google")) _ _
        (λ other. inr (inr ((λ s. omega arith), (λ s. omega arith), refl)))
        (λ same. elim (sign_in-cases 200 req user w) [
          | inl (session, answer, signed) ↦ inr (
              inl (
                user,
                session,
                account,
                (eq_iff user.auth_provider "google").0
                    (not-eq-false (user.auth_provider == "google") same),
                answer,
                signed,
              ))
          | inr (status, left) ↦
              inr (inr ((λ s. omega (arith, status)), (λ s. omega (arith, status)), left))
        ])

  unknown_user-Admission :
      (req : Request) (c : Claims) (e : Err) (w : World) → Admission c w.db (unknown_user req c e w)
  unknown_user-Admission req c record_not_found w = join-Admission req c w
  unknown_user-Admission req c _ w = inr (inr ((λ s. omega arith), (λ s. omega arith), refl))

  -- Google says that the address is the user's.
  abbrev IsTrusted : Claims → Type 0
  IsTrusted c = (c.email ≢ "") × (c.email_verified ≡ true)

  -- Let in on trusted claims, or refused with the tables unchanged.
  abbrev Entry : Claims → Db → Response × World → Type 0
  Entry c before out =
      (IsTrusted c × Admission c before out)
      ⊎ ((out.0.status ≢ 200) × (out.0.status ≢ 201) × (out.1.db ≡ before))

  trusted : (c : Claims) → (c.email == "" || not c.email_verified) ≡ false → IsTrusted c
  trusted c h = (ne_of-eq-false c.email "" (ground arith), ground arith)

  accept_claims-Entry :
      (req : Request) (c : Claims) (w : World) → Entry c w.db (accept_claims req c w)
  unfolding accept_claims
  accept_claims-Entry req c w =
      let lookup : Exec User = Users.get_by_email_including_deleted c.email in
      if-cases (Entry c w.db) (c.email == "" || not c.email_verified) _ _
        (λ bad. inr ((λ s. omega arith), (λ s. omega arith), refl))
        (λ good. inl (
          trusted c good,
          attempt-cases (Admission c w.db) lookup (unknown_user req c) (return_user req) w
              (λ e h.
                rw (lookup_unmoved c.email w) at (unknown_user-Admission req c e (lookup w).1))
              (λ user h. rw (lookup_unmoved c.email w) at (
                return_user-Admission req c user (lookup w).1
                  (rw (lookup_unmoved c.email w) (lookup_found c.email w user h)))),
        ))

  -- The outcome of a Google sign-in.
  abbrev pub GoogleOutcome :
      (String → GoogleAnswer) → Decoded String → World → Response × World → Type 0
  GoogleOutcome google body w out =
      ((code : String) × (c : Claims) × (body ≡ decoded code true)
        × (google code ≡ claims c)
        × IsTrusted c
        × Admission c w.db out)
      ⊎ ((out.0.status ≢ 200) × (out.0.status ≢ 201) × (out.1.db ≡ w.db))

  answer-Outcome :
      (google : String → GoogleAnswer) (req : Request) (body : Decoded String) (code : String)
      (w : World) (answer : GoogleAnswer)
      → body ≡ decoded code true
      → google code ≡ answer
      → GoogleOutcome google body w (answer_google req answer w)
  answer-Outcome google req body code w (claims c) read said = elim (accept_claims-Entry req c w) [
    | inl (good, admitted) ↦ inl (code, c, read, said, good, admitted)
    | inr left ↦ inr left
  ]
  answer-Outcome google req body code w _ read said =
      inr ((λ s. omega arith), (λ s. omega arith), refl)

  -- A Google sign-in succeeds only if Google answers the code with claims of a verified address. With
  -- a 201 the address was new, and a verified user without a password, the review permissions and one
  -- session have been added. With a 200 the address is that of an account that signs in with Google,
  -- never of one with a password, and one session of theirs has been added. Any other answer leaves
  -- all tables unchanged.
  pub google_auth_handler-GoogleOutcome :
      (google : String → GoogleAnswer) (req : Request) (body : Decoded String) (w : World)
      → GoogleOutcome google body w (google_auth_handler google req body w)
  unfolding google_auth_handler
  google_auth_handler-GoogleOutcome google req body w =
      let P : Response × World → Type 0 = GoogleOutcome google body w in
      read_json-cases P body _ w (λ e. inr ((λ s. omega arith), (λ s. omega arith), refl))
        λ code read.
          if-cases P (code == "") _ (answer_google req (google code) w)
            (λ none_given. inr ((λ s. omega arith), (λ s. omega arith), refl))
            (λ given. answer-Outcome google req body code w (google code) read refl)
