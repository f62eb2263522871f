-- ===== src/Store/Content.antt =====
-- The rows of the content tables, with the columns that internal/data reads or writes. Times are
-- nanoseconds from midnight of 1 January of the year 1, dates days from it; JSON columns are texts.
use gradconnect_api.Common.{ℕ, String, Bool, Option, List}
use gradconnect_api.Common.Int.{ℤ}

-- `Employer`. A rating is in hundredths, as numeric(3,2) holds it.
pub record Employer : Type 0 where
  pub id : String
  pub name : String
  pub slug : String
  pub industry : String
  pub size : Option String
  pub hq_location : Option String
  pub offices : String
  pub logo_url : Option String
  pub overview : Option String
  pub culture : Option String
  pub website : Option String
  pub social_links : String
  pub is_verified : Bool
  pub avg_difficulty_rating : Option ℕ
  pub avg_experience_rating : Option ℕ
  pub review_count : ℕ
  pub version : ℕ
  pub created_at : ℕ
  pub updated_at : ℕ

-- `Review`. The column of the author becomes NULL when the author's row is purged.
pub record Review : Type 0 where
  pub id : String
  pub employer_id : String
  pub user_id : Option String
  pub programme_name : String
  pub application_year : ℤ
  pub outcome : String
  pub stage_breakdown : String
  pub difficulty_rating : ℕ
  pub experience_rating : ℕ
  pub tips : Option String
  pub degree_discipline : Option String
  pub university : Option String
  pub status : String
  pub created_at : ℕ
  pub updated_at : ℕ

-- A row of opportunity; what `Opportunity` computes from it is in Data/Opportunities.
pub record OpportunityRow : Type 0 where
  pub id : String
  pub employer_id : String
  pub title : String
  pub slug : String
  pub kind : String
  pub intake_year : ℤ
  pub description : String
  pub requirements : Option String
  pub location : String
  pub discipline_tags : List String
  pub opens_at : Option ℕ
  pub deadline : Option ℕ
  pub application_url : String
  pub is_active : Bool
  pub source_url : Option String
  pub created_at : ℕ
  pub updated_at : ℕ

-- `ApplicationTracker`
pub record ApplicationTracker : Type 0 where
  pub id : String
  pub user_id : String
  pub opportunity_id : String
  pub status : String
  pub notes : Option String
  pub created_at : ℕ
  pub updated_at : ℕ

pub record BookmarkRow : Type 0 where
  pub id : String
  pub user_id : String
  pub opportunity_id : String
  pub created_at : ℕ

-- assessment_profile
pub record AssessmentProfile : Type 0 where
  pub id : String
  pub employer_id : String
  pub programme_type : String
  pub stages : String
  pub aptitude_test_provider : Option String
  pub interview_format : Option String
  pub timeline_weeks : Option ℤ
  pub prep_guide : Option String
  pub version : ℕ
  pub created_at : ℕ
  pub updated_at : ℕ

-- A row of cron_run.
pub record CronRun : Type 0 where
  pub id : String
  pub job_name : String
  pub run_date : ℕ
  pub enqueued_count : ℕ
  pub started_at : ℕ
  pub completed_at : Option ℕ
