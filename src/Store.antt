-- ===== src/Store.antt =====
-- What every operation of internal/data and internal/app runs on: the tables, the clock, the rate
-- limiter, what stands outside the program, and `inTransaction` of internal/app/helpers.go.
pub mod Rows
pub mod Content
pub mod Transactions
use gradconnect_api.Common.{
  ℕ, suc, String, Bool, true, false, Option, none, some, List, [], if◌then◌else◌,
}
use gradconnect_api.Ratelimit.{MemoryLimiter}
use gradconnect_api.Store.Rows.{AppUser, Session, TokenRow, Permission, Task}
use gradconnect_api.Store.Content.{
  Employer, Review, OpportunityRow, ApplicationTracker, BookmarkRow, CronRun, AssessmentProfile,
}

-- Go's error values that the code tells apart, and every other error.
pub data Err : Type 0 where
  record_not_found edit_conflict duplicate_email failure : Err
  duplicate_review duplicate_application duplicate_bookmark : Err
  duplicate_employer_slug duplicate_opportunity_slug already_ran_today : Err

pub data Result (A : Type 0) : Type 0 where
  ok : A → Result A
  err : Err → Result A

-- bcrypt's answer: the texts match, they do not, or the hash is not one that it can read.
pub data Comparison : Type 0 where
  same different unreadable : Comparison

-- What the program calls and does not contain, and its configuration. Queries, and the BEGIN and
-- COMMIT of a transaction, are numbered as they are made: `fails n` says that the n-th gets an error
-- from the driver, and `uuid n` is what gen_random_uuid() gives to it. `hash_password n` and
-- `random_token n` are the n-th draws of bcrypt's salt and of the base32 text of 16 random bytes.
-- `uuid_of` is the cast of a text to uuid, in the form in which ids are compared, and `is_uuid` is
-- uuid.Parse without its value. `text_search` is PostgreSQL's search of a document for a plain query,
-- `vector_search` that of the search vector of an opportunity, `ilike` its ILIKE, and `collates_before` the order of its collation.
pub record Env : Type 0 where
  pub fails : ℕ → Bool
  pub uuid : ℕ → String
  pub uuid_of : String → Option String
  pub is_uuid : String → Bool
  pub text_search : (document search : String) → Bool
  pub vector_search : OpportunityRow → (employer industry search : String) → Bool
  pub ilike : (text pattern : String) → Bool
  pub collates_before : String → String → Bool
  pub hash_password : ℕ → String → Option String
  pub compare_hash : Option String → String → Comparison
  pub random_token : ℕ → Option String
  pub sha256_hex : String → String
  pub base_url : String
  pub frontend_url : String
  pub cookie_domain : String
  pub production : Bool

-- The tables, each a list of rows.
pub record Db : Type 0 where
  pub app_user : List AppUser
  pub session : List Session
  pub email_verification_token : List TokenRow
  pub password_reset_token : List TokenRow
  pub user_permission : List Permission
  pub task_queue : List Task
  pub employer : List Employer
  pub review : List Review
  pub opportunity : List OpportunityRow
  pub application_track : List ApplicationTracker
  pub bookmark : List BookmarkRow
  pub cron_run : List CronRun
  pub assessment_profile : List AssessmentProfile

abbrev pub empty_db : Db
empty_db = record {
  app_user = [];
  session = [];
  email_verification_token = [];
  password_reset_token = [];
  user_permission = [];
  task_queue = [];
  employer = [];
  review = [];
  opportunity = [];
  application_track = [];
  bookmark = [];
  cron_run = [];
  assessment_profile = [];
}

-- One clock serves time.Now() and the database's now(), and does not move within a request. `queries`
-- is the number of the next query.
pub record World : Type 0 where
  pub db : Db
  pub limiter : MemoryLimiter
  pub now : ℕ
  pub year : ℕ
  pub queries : ℕ

-- An action that may return a Go error. What it has written before stays written.
abbrev pub Exec : Type 0 → Type 0
Exec A = World → Result A × World

abbrev pub pure : {A : Type 0} → A → Exec A
pure a w = (ok a, w)

abbrev pub raise : {A : Type 0} → Err → Exec A
raise e w = (err e, w)

abbrev pub continue : {A B : Type 0} → Result A → (A → Exec B) → Exec B
continue (ok a) f w = f a w
continue (err e) f w = (err e, w)

-- `if err != nil { return err }`
infixl 5 ◌>>=◌ ◌>>◌
abbrev pub ◌>>=◌ : {A B : Type 0} → Exec A → (A → Exec B) → Exec B
◌>>=◌ m f w = let (r, w') = m w in continue r f w'

abbrev pub ◌>>◌ : {B : Type 0} → Exec (Unit {0}) → Exec B → Exec B
m >> k = m >>= λ _. k

-- One SQL statement: given now(), its number and the tables, its result and the new tables.
abbrev pub Sql : Type 0 → Type 0
Sql A = ℕ → ℕ → Db → Result A × Db

abbrev pub tick : World → World
tick w = record w { queries = suc w.queries }

module _ ⦃env : Env⦄ where
  -- A statement that the driver fails changes nothing.
  unfoldable pub query : {A : Type 0} → Sql A → Exec A
  query f w =
      if env.fails w.queries
      then (err failure, tick w)
      else let (r, db) = f w.now w.queries w.db in (r, record (tick w) { db = db })

  -- What follows the callback: COMMIT, or the deferred ROLLBACK to the tables at BEGIN.
  unfoldable pub finish : {A : Type 0} → Db → Result A → Exec A
  finish saved (err e) w = (err e, record w { db = saved })
  finish saved (ok a) w =
      if env.fails w.queries then (err failure, record (tick w) { db = saved }) else (ok a, tick w)

  -- `inTransaction`
  unfoldable pub in_transaction : {A : Type 0} → Exec A → Exec A
  in_transaction fn w =
      if env.fails w.queries
      then (err failure, tick w)
      else let (r, w') = fn (tick w) in finish w.db r w'
