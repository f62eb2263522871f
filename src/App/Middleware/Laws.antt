-- ===== src/App/Middleware/Laws.antt =====
-- What the gates of internal/app/middleware.go guarantee to the handlers behind them.
use gradconnect_api.Common.{
  ℕ, suc, ◌<◌, String, ◌≡◌, refl, sym, ◌∙◌, ap, subst, ◌⊎◌, inl, inr, Bool, true, false, not, ◌&&◌,
  Option, none, some, List, arith, eq_iff, ◌==◌, ltb→lt, is_some, contains, In, find_first,
  find_first-some, find_first_eq_none, if-cases, not-eq-false, Bool-cases,
}
use gradconnect_api.Store.{ok, Env, World}
use gradconnect_api.Store.Rows.{User, AppUser, Session}
use gradconnect_api.Store.Transactions.{query-ok, query-read, query-world}
use gradconnect_api.Data.Ids.{with_uuid, with_uuid-cases}
use gradconnect_api.Data.Users
use gradconnect_api.Data.Users.{is_live, scan_user, get_by_id_sql}
use gradconnect_api.Data.Sessions
use gradconnect_api.Data.Sessions.{is_current, scan_session, second}
use gradconnect_api.Data.Permissions
use gradconnect_api.Data.Permissions.Laws.{HasPermission, codes_of, codes_of_iff}
use gradconnect_api.App.Http.{
  Request, Response, Handler, Principal, anonymous, signed_in, server_error_response, attempt,
  attempt-cases,
}
use gradconnect_api.App.Middleware.{
  with_user, with_session, with_cookie, authenticate, check_permission, answer_permissions,
  require_permission,
}

-- A refusal: one of the given statuses, with the tables unchanged.
abbrev pub IsRefusal : World → Response × World → Type 0
IsRefusal w (r, w') = ((r.status ≡ 401) ⊎ ((r.status ≡ 403) ⊎ (r.status ≡ 500))) × (w'.db ≡ w.db)

module _ ⦃env : Env⦄ where
  abbrev pub Permitted :
      String → (Principal → Handler) → Principal → World → Response × World → Type 0
  Permitted code next p w out =
      (u : User) × (w' : World) × (p ≡ signed_in u)
      × (u.email_verified ≡ true)
      × HasPermission w.db u.id code
      × (w'.db ≡ w.db)
      × (out ≡ next (signed_in u) w')

  permissions-read :
      (user_id : String) (w : World) → (Permissions.get_all_for_user user_id w).1.db ≡ w.db
  unfolding Permissions.get_all_for_user
  permissions-read user_id w = ground arith

  permissions-ok :
      (user_id : String) (w : World) {codes : List String}
      → (Permissions.get_all_for_user user_id w).0 ≡ ok codes
      → codes ≡ codes_of user_id w.db
  unfolding Permissions.get_all_for_user
  permissions-ok user_id w h = ground arith

  answer_permissions-cases :
      (code : String) (next : Principal → Handler) (u : User) (codes : List String) (w w' : World)
      → u.email_verified ≡ true
      → w'.db ≡ w.db
      → codes ≡ codes_of u.id w.db
      → IsRefusal w (answer_permissions code next (signed_in u) codes w')
        ⊎ Permitted code next (signed_in u) w (answer_permissions code next (signed_in u) codes w')
  answer_permissions-cases code next u codes w w' v same e =
      elim (Bool-cases (contains codes code)) [
        | inl h ↦
            let held : HasPermission w.db u.id code = (codes_of_iff u.id code w.db).0 (rw e at h) in
            rw h (inr (u, w', refl, v, held, same, refl))
        | inr h ↦ rw h (inl (inr (inl refl), same))
      ]

  -- A handler behind `requirePermission` runs only for a signed-in user with a verified email whom
  -- the table grants the code, and on unchanged tables; every other request gets a 401, a 403 or a
  -- 500 that changes nothing.
  pub require_permission-cases :
      (code : String) (next : Principal → Handler) (p : Principal) (w : World)
      → IsRefusal w (require_permission code next p w)
        ⊎ Permitted code next p w (require_permission code next p w)
  unfolding require_permission check_permission
  require_permission-cases code next anonymous w = inl (inl refl, refl)
  require_permission-cases code next (signed_in u) w =
      let P =
        λ (out : Response × World). IsRefusal w out ⊎ Permitted code next (signed_in u) w out in
      if-cases P (not u.email_verified) _ _ (λ _. inl (inr (inl refl), refl))
        λ v.
          attempt-cases P (Permissions.get_all_for_user u.id) (λ e w. (server_error_response, w))
            (answer_permissions code next (signed_in u)) w
            (λ d h. inl (inr (inr refl), permissions-read u.id w))
            λ codes h.
              answer_permissions-cases code next u codes w _ (not-eq-false _ v)
                (permissions-read u.id w) (permissions-ok u.id w h)

-- A current session of a live account stands behind the cookie.
pub record IsGenuine ⦃env : Env⦄ (req : Request) (w : World) (u : User) : Type 0 where
  pub value : String
  pub sent : req.cookie ≡ some value
  pub id : String
  pub cast : env.uuid_of value ≡ some id
  pub session : Session
  pub stored : In session w.db.session
  pub named : session.id ≡ id
  pub current : w.now < session.expires_at
  pub row : AppUser
  pub listed : In row w.db.app_user
  pub owner : row.id ≡ session.user_id
  pub live : row.deleted_at ≡ none
  pub shown : row.user ≡ u

and-false : (a b : Bool) → (a ≡ true → b ≡ false) → (a && b) ≡ false
and-false true b h = h refl
and-false false b h = refl

live-deleted_at : (o : Option ℕ) → not (is_some o) ≡ true → o ≡ none
live-deleted_at none h = refl
live-deleted_at (some t) h = cc

module _ ⦃env : Env⦄ where
  -- `next` runs for `p`, or the answer is a 500; the tables are those of `w`.
  abbrev pub Authenticated : Request → (Principal → Handler) → World → Response × World → Type 0
  Authenticated req next w out =
      ((out.0 ≡ server_error_response) × (out.1.db ≡ w.db))
      ⊎ (((w' : World) × (w'.db ≡ w.db) × (out ≡ next anonymous w'))
          ⊎ ((u : User) × (w' : World) × IsGenuine req w u
              × (w'.db ≡ w.db)
              × (out ≡ next (signed_in u) w')))

  session-read :
      (value : String) (w : World)
      → ((Sessions.get_by_id value w).1.db ≡ w.db) × ((Sessions.get_by_id value w).1.now ≡ w.now)
  unfolding Sessions.get_by_id Sessions.get_by_id_sql
  session-read value w = (
    query-read (Sessions.get_by_id_sql value) w (
        with_uuid-cases (λ out. out.1 ≡ w.db) value _ w.now w.queries w.db (λ e. refl)
          (λ id e. refl)),
    ap (λ w. w.now) (query-world (Sessions.get_by_id_sql value) w),
  )

  user-read : (id : String) (w : World) → (Users.get_by_id id w).1.db ≡ w.db
  unfolding Users.get_by_id
  user-read id w = ground arith

  scan_session-ok : (o : Option Session) {s : Session} → scan_session o ≡ ok s → o ≡ some s
  scan_session-ok none h = cc
  scan_session-ok (some r) h = cc

  session-ok :
      (value : String) (w : World) {s : Session}
      → (Sessions.get_by_id value w).0 ≡ ok s
      → (id : String) × (env.uuid_of value ≡ some id)
        × In s w.db.session
        × (is_current w.now id s ≡ true)
  unfolding Sessions.get_by_id Sessions.get_by_id_sql
  session-ok value w {s} h =
      with_uuid-cases
        (λ out.
          out.0 ≡ ok s
          → (id : String) × (env.uuid_of value ≡ some id)
            × In s w.db.session
            × (is_current w.now id s ≡ true))
        value _ w.now w.queries w.db (λ e h. absurd (cc h))
        (λ id e h.
          let (there, holds) =
            find_first-some (is_current w.now id) w.db.session (scan_session-ok _ h) in
          (id, e, there, holds))
        (query-ok (Sessions.get_by_id_sql value) w h).0

  scan_user-ok :
      (o : Option AppUser) {u : User}
      → scan_user o ≡ ok u
      → (r : AppUser) × (o ≡ some r) × (r.user ≡ u)
  scan_user-ok none h = cc
  scan_user-ok (some r) h = (r, refl, cc)

  user-ok :
      (id : String) (w : World) {u : User}
      → (Users.get_by_id id w).0 ≡ ok u
      → (r : AppUser) × In r w.db.app_user × (r.id ≡ id) × (r.deleted_at ≡ none) × (r.user ≡ u)
  unfolding Users.get_by_id
  user-ok id w h =
      let (done, _) = query-ok (get_by_id_sql id) w h in
      let (r, found, shown) = scan_user-ok _ done in
      let (listed, holds) = find_first-some _ w.db.app_user found in
      (
        r,
        listed,
        (eq_iff r.id id).0 (ground arith),
        live-deleted_at r.deleted_at (ground arith),
        shown,
      )

  with_user-signed_in :
      (next : Principal → Handler) (s : Session) (u : User) (w : World)
      → u.deleted_at ≡ none
      → with_user next s u w ≡ next (signed_in u) w
  unfolding with_user
  with_user-signed_in next s u w h = ground arith

  -- The session of a request that carries a cookie.
  with_session-Authenticated :
      (req : Request) (next : Principal → Handler) (value id : String) (s : Session) (w w' : World)
      → req.cookie ≡ some value
      → env.uuid_of value ≡ some id
      → In s w.db.session
      → is_current w.now id s ≡ true
      → w'.db ≡ w.db
      → Authenticated req next w (with_session next s w')
  unfolding with_session
  with_session-Authenticated req next value id s w w' sent cast stored holds same =
      attempt-cases (Authenticated req next w) (Users.get_by_id s.user_id)
        (λ e v. (server_error_response, v)) (with_user next s) w'
        (λ e h. inl (refl, user-read s.user_id w' ∙ same))
        λ u h.
          let (r, listed, owner, live, shown) = user-ok s.user_id w' h in
          inr (
            inr (
              u,
              (Users.get_by_id s.user_id w').1,
              record {
                value = value;
                sent = sent;
                id = id;
                cast = cast;
                session = s;
                stored = stored;
                named = (eq_iff s.id id).0 (ground arith);
                current = ltb→lt w.now s.expires_at (ground arith);
                row = r;
                listed = subst (λ d. In r d.app_user) same listed;
                owner = owner;
                live = live;
                shown = shown;
              },
              user-read s.user_id w' ∙ same,
              with_user-signed_in next s u _ (ap (λ (v : User). v.deleted_at) (sym shown) ∙ live),
            ))

  with_cookie-Authenticated :
      (req : Request) (next : Principal → Handler) (o : Option String) (w : World)
      → req.cookie ≡ o
      → Authenticated req next w (with_cookie next o w)
  unfolding with_cookie
  with_cookie-Authenticated req next none w e = inr (inl (w, refl, refl))
  with_cookie-Authenticated req next (some value) w e =
      attempt-cases (Authenticated req next w) (Sessions.get_by_id value) (λ d. next anonymous)
        (with_session next) w
        (λ d h. inr (inl ((Sessions.get_by_id value w).1, (session-read value w).0, refl)))
        λ s h.
          let (id, cast, stored, holds) = session-ok value w h in
          with_session-Authenticated req next value id s w _ e cast stored holds
            (session-read value w).0

  -- A handler behind `authenticate` runs as a user only if the request's cookie names a session that
  -- is stored and not expired, and the user is the row of its owner, which is not soft-deleted. Else
  -- it runs as anonymous, or the answer is a 500. In every case the tables are unchanged.
  pub authenticate-Authenticated :
      (req : Request) (next : Principal → Handler) (w : World)
      → Authenticated req next w (authenticate next req w)
  unfolding authenticate
  authenticate-Authenticated req next w = with_cookie-Authenticated req next req.cookie w refl

  -- Where the driver fails no query, a request whose cookie names a current session of a user with
  -- no live row gets a 500, whatever the handler, and its session stays stored.
  pub authenticate-soft_deleted :
      (req : Request) (next : Principal → Handler) (w : World) (value id : String) (s : Session)
      → ((n : ℕ) → env.fails n ≡ false)
      → req.cookie ≡ some value
      → env.uuid_of value ≡ some id
      → find_first (is_current w.now id) w.db.session ≡ some s
      → ((r : AppUser) → In r w.db.app_user → r.id ≡ s.user_id → is_live r ≡ false)
      → ((authenticate next req w).0 ≡ server_error_response)
        × ((authenticate next req w).1.db ≡ w.db)
  unfolding authenticate with_cookie with_session attempt Sessions.get_by_id Sessions.get_by_id_sql
      with_uuid Users.get_by_id
  authenticate-soft_deleted req next w value id s sound sent cast found gone =
      let missing : find_first (λ r. r.id == s.user_id && is_live r) w.db.app_user ≡ none =
        find_first_eq_none _ w.db.app_user (λ r i.
          and-false (r.id == s.user_id) (is_live r)
            λ own. gone r i ((eq_iff r.id s.user_id).0 own)) in
      ground (arith, sent, cast, found, missing, sound w.queries, sound (suc w.queries))
