-- ===== src/Data/Integrity/Content.antt =====
-- The statements of the other models of internal/data and of internal/worker that write: none of them
-- writes a user, a session, a token or a permission.
use gradconnect_api.Common.{ℕ, String, ◌≡◌, List, arith}
use gradconnect_api.Store.{Env, Db}
use gradconnect_api.Store.Rows.{AppUser, TokenRow, Permission, Session}
use gradconnect_api.Store.Content.{
  Review, Employer, OpportunityRow, ApplicationTracker, AssessmentProfile,
}
use gradconnect_api.Data.Ids.{with_uuid}
use gradconnect_api.Data.Employers
use gradconnect_api.Data.Employers.Validation.{CreateEmployerInput}
use gradconnect_api.Data.Employers.Upsert.{upsert_sql as upsert_employer_sql}
use gradconnect_api.Data.Employers.Ratings.{recalculate_ratings_sql}
use gradconnect_api.Data.Reviews
use gradconnect_api.Data.Reviews.Validation.{CreateReviewInput, UpdateReviewInput}
use gradconnect_api.Data.Opportunities
use gradconnect_api.Data.Opportunities.Validation.{CreateOpportunityInput}
use gradconnect_api.Data.Opportunities.Upsert.{upsert_sql as upsert_opportunity_sql}
use gradconnect_api.Data.Bookmarks
use gradconnect_api.Data.Applications
use gradconnect_api.Data.Applications.Validation.{CreateApplicationInput}
use gradconnect_api.Data.Assessments
use gradconnect_api.Data.Assessments.Validation.{CreateAssessmentInput}
use gradconnect_api.Worker.{claim_next_sql, mark_completed_sql, mark_failed_sql}
use gradconnect_api.Worker.Cron.{
  claim_run_sql, restart_run_sql, complete_run_sql, rate_employer_sql,
}

pub data ContentStatement : Type 0 where
  insert_employer : (input : CreateEmployerInput) → ContentStatement
  update_employer : (id : String) → (e : Employer) → ContentStatement
  delete_employer : (id : String) → ContentStatement
  upsert_employer : (input : CreateEmployerInput) → ContentStatement
  recalculate_ratings : (id : String) → ContentStatement
  insert_review : (user_id : String) → (input : CreateReviewInput) → ContentStatement
  update_review :
      (user_id : String)
      → (id : String) → (input : UpdateReviewInput) → (current : Review) → ContentStatement
  delete_review : (user_id : String) → (id : String) → ContentStatement
  moderate_review : (id : String) → (status : String) → ContentStatement
  insert_opportunity : (input : CreateOpportunityInput) → ContentStatement
  update_opportunity : (id : String) → (current : OpportunityRow) → ContentStatement
  delete_opportunity : (id : String) → ContentStatement
  upsert_opportunity : (input : CreateOpportunityInput) → ContentStatement
  create_bookmark : (user_id : String) → (id : String) → ContentStatement
  delete_bookmark : (id : String) → (user_id : String) → ContentStatement
  add_application : (user_id : String) → (input : CreateApplicationInput) → ContentStatement
  update_application :
      (user_id : String) → (id : String) → (current : ApplicationTracker) → ContentStatement
  remove_application : (user_id : String) → (id : String) → ContentStatement
  insert_assessment : (input : CreateAssessmentInput) → ContentStatement
  update_assessment : (id : String) → (current : AssessmentProfile) → ContentStatement
  delete_assessment : (id : String) → ContentStatement
  claim_run : (job : String) → (date : ℕ) → ContentStatement
  restart_run : (job : String) → (date : ℕ) → ContentStatement
  complete_run : (count : ℕ) → (run_id : String) → ContentStatement
  rate_employer : (id : String) → ContentStatement
  claim_task : ContentStatement
  complete_task : (id : String) → ContentStatement
  fail_task : (id : String) → (message : String) → ContentStatement

module _ ⦃env : Env⦄ where
  -- The tables after a statement, at a time and with a number.
  unfoldable pub execute_content : ContentStatement → ℕ → ℕ → Db → Db
  execute_content (insert_employer input) now n db = (Employers.insert_sql input now n db).1
  execute_content (update_employer id e) now n db = (Employers.update_sql id e now n db).1
  execute_content (delete_employer id) now n db = (Employers.delete_sql id now n db).1
  execute_content (upsert_employer input) now n db = (upsert_employer_sql input now n db).1
  execute_content (recalculate_ratings id) now n db = (recalculate_ratings_sql id now n db).1
  execute_content (insert_review user_id input) now n db =
      (Reviews.insert_sql user_id input now n db).1
  execute_content (update_review user_id id input current) now n db =
      (Reviews.update_sql user_id id input current now n db).1
  execute_content (delete_review user_id id) now n db = (Reviews.delete_sql user_id id now n db).1
  execute_content (moderate_review id status) now n db = (Reviews.moderate_sql id status now n db).1
  execute_content (insert_opportunity input) now n db = (Opportunities.insert_sql input now n db).1
  execute_content (update_opportunity id current) now n db =
      (Opportunities.update_sql id current now n db).1
  execute_content (delete_opportunity id) now n db = (Opportunities.delete_sql id now n db).1
  execute_content (upsert_opportunity input) now n db = (upsert_opportunity_sql input now n db).1
  execute_content (create_bookmark user_id id) now n db =
      (Bookmarks.create_sql user_id id now n db).1
  execute_content (delete_bookmark id user_id) now n db =
      (Bookmarks.delete_sql id user_id now n db).1
  execute_content (add_application user_id input) now n db =
      (Applications.add_sql user_id input now n db).1
  execute_content (update_application user_id id current) now n db =
      (Applications.update_sql user_id id current now n db).1
  execute_content (remove_application user_id id) now n db =
      (Applications.remove_sql user_id id now n db).1
  execute_content (insert_assessment input) now n db = (Assessments.insert_sql input now n db).1
  execute_content (update_assessment id current) now n db =
      (Assessments.update_sql id current now n db).1
  execute_content (delete_assessment id) now n db = (Assessments.delete_sql id now n db).1
  execute_content (claim_run job date) now n db = (claim_run_sql job date now n db).1
  execute_content (restart_run job date) now n db = (restart_run_sql job date now n db).1
  execute_content (complete_run count run_id) now n db = (complete_run_sql count run_id now n db).1
  execute_content (rate_employer id) now n db = (rate_employer_sql id now n db).1
  execute_content claim_task now n db = (claim_next_sql now n db).1
  execute_content (complete_task id) now n db = (mark_completed_sql id now n db).1
  execute_content (fail_task id message) now n db = (mark_failed_sql id message now n db).1

abbrev pub Accounts : Type 0
Accounts = List AppUser × List Session × List TokenRow × List TokenRow × List Permission

-- The tables with a foreign key to app_user that has to hold, and app_user.
abbrev pub accounts : Db → Accounts
accounts db = (
  db.app_user, db.session, db.email_verification_token, db.password_reset_token, db.user_permission,
)

module _ ⦃env : Env⦄ where
  pub execute_content-accounts :
      (statement : ContentStatement) (now n : ℕ) (db : Db)
      → accounts (execute_content statement now n db) ≡ accounts db
  unfolding execute_content with_uuid Employers.insert_sql Employers.update_sql Employers.delete_sql
      recalculate_ratings_sql Reviews.insert_sql Reviews.update_sql Reviews.delete_sql
      Reviews.moderate_sql Opportunities.insert_sql Opportunities.update_sql
      Opportunities.delete_sql Bookmarks.create_sql Bookmarks.delete_sql Applications.add_sql
      Applications.update_sql Applications.remove_sql Assessments.insert_sql Assessments.update_sql
      Assessments.delete_sql claim_run_sql restart_run_sql complete_run_sql rate_employer_sql
      claim_next_sql mark_completed_sql mark_failed_sql upsert_employer_sql upsert_opportunity_sql
  execute_content-accounts (insert_employer input) now n db = ground arith
  execute_content-accounts (update_employer id e) now n db = ground arith
  execute_content-accounts (delete_employer id) now n db = ground arith
  execute_content-accounts (upsert_employer input) now n db = ground arith
  execute_content-accounts (recalculate_ratings id) now n db = ground arith
  execute_content-accounts (insert_review user_id input) now n db = ground arith
  execute_content-accounts (update_review user_id id input current) now n db = ground arith
  execute_content-accounts (delete_review user_id id) now n db = ground arith
  execute_content-accounts (moderate_review id status) now n db = ground arith
  execute_content-accounts (insert_opportunity input) now n db = ground arith
  execute_content-accounts (update_opportunity id current) now n db = ground arith
  execute_content-accounts (delete_opportunity id) now n db = ground arith
  execute_content-accounts (upsert_opportunity input) now n db = ground arith
  execute_content-accounts (create_bookmark user_id id) now n db = ground arith
  execute_content-accounts (delete_bookmark id user_id) now n db = ground arith
  execute_content-accounts (add_application user_id input) now n db = ground arith
  execute_content-accounts (update_application user_id id current) now n db = ground arith
  execute_content-accounts (remove_application user_id id) now n db = ground arith
  execute_content-accounts (insert_assessment input) now n db = ground arith
  execute_content-accounts (update_assessment id current) now n db = ground arith
  execute_content-accounts (delete_assessment id) now n db = ground arith
  execute_content-accounts (claim_run job date) now n db = ground arith
  execute_content-accounts (restart_run job date) now n db = ground arith
  execute_content-accounts (complete_run count run_id) now n db = ground arith
  execute_content-accounts (rate_employer id) now n db = ground arith
  execute_content-accounts claim_task now n db = ground arith
  execute_content-accounts (complete_task id) now n db = ground arith
  execute_content-accounts (fail_task id message) now n db = ground arith
