-- ===== src/App/Mail.antt =====
-- internal/app/helpers.go, `sendIfDeliverable`: whether an email is handed to the mailer.
pub mod Laws
use gradconnect_api.Common.{
  ℕ, String, Bool, true, false, not, Option, none, some, ◌==◌, find_first, if◌then◌else◌,
}
use gradconnect_api.Store.{
  Err, record_not_found, failure, Result, ok, err, Env, Sql, Exec, World, query,
}
use gradconnect_api.Store.Rows.{AppUser}

-- What has become of an email: the mailer has it, or its address is suppressed.
pub data Delivery : Type 0 where
  handed_over suppressed : Delivery

abbrev pub scan_status : Option AppUser → Result String
scan_status none = err record_not_found
scan_status (some r) = ok r.email_status

-- `SELECT email_status FROM app_user WHERE email = $1`
unfoldable pub email_status_sql : String → Sql String
unfolding find_first
email_status_sql recipient now n db =
    (scan_status (find_first (λ r. r.email == recipient) db.app_user), db)

-- An address without an account is sent to; any other error of the lookup is returned.
abbrev pub decide : Result String → Result Delivery
decide (ok status) = if not (status == "active") then ok suppressed else ok handed_over
decide (err record_not_found) = ok handed_over
decide (err e) = err failure

module _ ⦃env : Env⦄ where
  unfoldable pub send_if_deliverable : String → Exec Delivery
  unfolding query email_status_sql
  send_if_deliverable recipient w =
      let (r, w') = query (email_status_sql recipient) w in (decide r, w')
