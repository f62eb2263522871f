-- ===== src/Store/Rows.antt =====
-- The rows of the tables, with the columns that the code reads or writes (internal/data/*.go and the
-- migrations). Times are nanoseconds.
use gradconnect_api.Common.{ℕ, String, Bool, Option, List}
use gradconnect_api.Common.Int.{ℤ}

-- `User` of internal/data/users.go; of its password only the hash outlives a call.
pub record User : Type 0 where
  pub id : String
  pub email : String
  pub password_hash : Option String
  pub first_name : String
  pub last_name : String
  pub auth_provider : String
  pub email_verified : Bool
  pub degree_discipline : Option String
  pub graduation_year : Option ℤ
  pub target_industries : List String
  pub preferred_locations : List String
  pub preferences : String
  pub version : ℕ
  pub created_at : ℕ
  pub updated_at : ℕ
  pub deleted_at : Option ℕ

-- A row of app_user: a `User` and the columns that no query returns with it.
pub record AppUser : Type 0 where
  pub user : User
  pub open user use *
  pub deletion_reason : Option String
  pub email_status : String
  pub email_status_updated_at : Option ℕ

pub record Session : Type 0 where
  pub id : String
  pub user_id : String
  pub ip_address : String
  pub user_agent : String
  pub created_at : ℕ
  pub expires_at : ℕ

-- A row of email_verification_token or password_reset_token.
pub record TokenRow : Type 0 where
  pub user_id : String
  pub token_hash : String
  pub expires_at : ℕ

pub record Permission : Type 0 where
  pub user_id : String
  pub permission : String

pub data TaskStatus : Type 0 where
  pending processing completed failed dead : TaskStatus

-- What a reminder says of one bookmark.
pub record DeadlineReminderBookmark : Type 0 where
  pub title : String
  pub employer_name : String
  pub opportunity_slug : String
  pub deadline : Option ℕ
  pub days_remaining : ℕ

-- A JSON object with text values, such an object with a list of bookmarks, or JSON text that is passed
-- on unread.
pub data Payload : Type 0 where
  fields : List (String × String) → Payload
  digest : List (String × String) → List DeadlineReminderBookmark → Payload
  raw : String → Payload

pub record Task : Type 0 where
  pub id : String
  pub job_type : String
  pub payload : Payload
  pub status : TaskStatus
  pub attempts : ℕ
  pub max_attempts : ℕ
  pub last_error : Option String
  pub run_at : ℕ
  pub locked_at : Option ℕ
  pub completed_at : Option ℕ
