-- ===== src/App/Workers.antt =====
-- internal/app/workers.go: the handlers of the background jobs. The mailer, json.Unmarshal on a payload
-- that was passed on unread, and the import of a file (App/Imports/Jobs) are the
-- fields of Services. The texts of errors are shortened.
pub mod Bounces
use gradconnect_api.Common.{
  ℕ, String, Bool, true, false, Option, none, some, List, [], ◌∷◌, map, ◌==◌, ◌+++◌, lookup,
  if◌then◌else◌,
}
use gradconnect_api.Store.{Err, Result, ok, err, Env, World, Exec}
use gradconnect_api.Store.Rows.{Payload, fields, digest, raw, DeadlineReminderBookmark}
use gradconnect_api.Data.Users
use gradconnect_api.Data.Employers
use gradconnect_api.App.Mail.{Delivery, handed_over, suppressed, send_if_deliverable}
use gradconnect_api.Worker.{HandlerFunc, Dispatcher, new_dispatcher, register}

-- What a handler reads of a payload: the texts of its keys, and the bookmarks of a reminder.
pub record Load : Type 0 where
  pub texts : List (String × String)
  pub bookmarks : List DeadlineReminderBookmark

-- `sesBouncePayload`
pub record BouncePayload : Type 0 where
  pub bounce_type : String
  pub bounced_recipients : List String

pub record Services : Type 0 where
  pub send : (recipient template_file : String) → Load → World → Option String × World
  pub unmarshal : List String → String → Option Load
  pub unmarshal_bounce : Payload → Option BouncePayload
  pub unmarshal_complaint : Payload → Option (List String)
  pub process_import : String → World → Option String × World

abbrev pub text_of : Option String → String
text_of none = ""
text_of (some text) = text

abbrev pub pick : List String → List (String × String) → List (String × String)
pick keys texts = map (λ k. (k, text_of (lookup k texts))) keys

abbrev pub bad_payload : World → Option String × World
bad_payload w = (some "unmarshaling job payload", w)

module _ ⦃env : Env⦄ where
  -- The loops over the recipients stop at the first error.
  unfoldable pub mark_each : String → List String → World → Option String × World
  unfolding Users.mark_email_status
  mark_each status [] w = (none, w)
  mark_each status (email ∷ emails) w = elim (Users.mark_email_status email status w).0 [
    | ok done ↦ mark_each status emails (Users.mark_email_status email status w).1
    | err e ↦ (
      some ("marking " +++ email +++ " as " +++ status),
      (Users.mark_email_status email status w).1,
    )
  ]

module _ ⦃env : Env⦄ (services : Services) where
  -- `UnmarshalPayload`: a key that is missing leaves its field empty.
  abbrev pub unmarshal_payload : List String → Payload → Option Load
  unmarshal_payload keys (fields texts) = some (record { texts = pick keys texts; bookmarks = [] })
  unmarshal_payload keys (digest texts bookmarks) =
      some (record { texts = pick keys texts; bookmarks = bookmarks })
  unmarshal_payload keys (raw text) = services.unmarshal keys text

  abbrev pub deliver : String → String → Load → Result Delivery × World → Option String × World
  deliver recipient template_file load (err e, w) = (some "checking email status", w)
  deliver recipient template_file load (ok suppressed, w) = (none, w)
  deliver recipient template_file load (ok handed_over, w) =
      services.send recipient template_file load w

  -- `sendIfDeliverable`
  unfoldable pub send_if : String → String → Load → World → Option String × World
  unfolding send_if_deliverable
  send_if recipient template_file load w =
      deliver recipient template_file load (send_if_deliverable recipient w)

  abbrev pub on_load :
      (Load → World → Option String × World) → Option Load → World → Option String × World
  on_load send none w = bad_payload w
  on_load send (some load) w = send load w

  -- A job that mails to the address under a key.
  unfoldable pub mail_job : List String → String → String → HandlerFunc
  unfolding send_if
  mail_job keys to template_file payload =
      on_load (λ load. send_if (text_of (lookup to load.texts)) template_file load)
        (unmarshal_payload keys payload)

  unfoldable pub handle_email_verify : HandlerFunc
  unfolding mail_job
  handle_email_verify =
      mail_job ("base_url" ∷ "user_email" ∷ "first_name" ∷ "activation_token" ∷ []) "user_email"
        "email_verify.tmpl"

  unfoldable pub handle_email_welcome : HandlerFunc
  unfolding mail_job
  handle_email_welcome =
      mail_job ("user_email" ∷ "first_name" ∷ []) "user_email" "user_welcome.tmpl"

  unfoldable pub handle_email_password_reset : HandlerFunc
  unfolding mail_job
  handle_email_password_reset =
      mail_job ("frontend_url" ∷ "user_email" ∷ "first_name" ∷ "reset_token" ∷ []) "user_email"
        "password_reset.tmpl"

  unfoldable pub handle_email_password_changed : HandlerFunc
  unfolding mail_job
  handle_email_password_changed =
      mail_job ("user_email" ∷ "first_name" ∷ []) "user_email" "password_changed.tmpl"

  unfoldable pub handle_email_deadline_reminder : HandlerFunc
  unfolding mail_job
  handle_email_deadline_reminder =
      mail_job ("recipient" ∷ "first_name" ∷ "base_url" ∷ "frontend_url" ∷ []) "recipient"
        "deadline_reminder.tmpl"

  unfoldable pub handle_email_account_restored : HandlerFunc
  unfolding mail_job
  handle_email_account_restored =
      mail_job ("user_email" ∷ "first_name" ∷ []) "user_email" "account_restored.tmpl"

  -- This one does not look at the status of the address.
  unfoldable pub handle_email_account_deleted : HandlerFunc
  handle_email_account_deleted payload =
      on_load
        (λ load.
          services.send (text_of (lookup "user_email" load.texts)) "account_deleted.tmpl" load)
        (unmarshal_payload ("user_email" ∷ "first_name" ∷ []) payload)

  unfoldable pub handle_admin_import : HandlerFunc
  handle_admin_import payload =
      on_load (λ load. services.process_import (text_of (lookup "import_job_id" load.texts)))
        (unmarshal_payload ("import_job_id" ∷ []) payload)

  abbrev pub recalculated : Result (Unit {0}) × World → Option String × World
  recalculated (ok done, w) = (none, w)
  recalculated (err e, w) = (some "recalculating ratings", w)

  unfoldable pub handle_employer_recalc_ratings : HandlerFunc
  unfolding Employers.recalculate_ratings
  handle_employer_recalc_ratings payload =
      on_load
        (λ load w.
          recalculated
            (Employers.recalculate_ratings (text_of (lookup "employer_id" load.texts)) w))
        (unmarshal_payload ("employer_id" ∷ []) payload)

  abbrev pub on_bounce : Option BouncePayload → World → Option String × World
  on_bounce none w = bad_payload w
  on_bounce (some b) w =
      if b.bounce_type == "Permanent" then mark_each "bounced" b.bounced_recipients w else (none, w)

  unfoldable pub handle_ses_bounce : HandlerFunc
  unfolding mark_each
  handle_ses_bounce payload = on_bounce (services.unmarshal_bounce payload)

  abbrev pub on_complaint : Option (List String) → World → Option String × World
  on_complaint none w = bad_payload w
  on_complaint (some recipients) w = mark_each "complained" recipients w

  unfoldable pub handle_ses_complaint : HandlerFunc
  unfolding mark_each
  handle_ses_complaint payload = on_complaint (services.unmarshal_complaint payload)

  abbrev pub jobs : List (String × HandlerFunc)
  jobs =
      ("email:verify", handle_email_verify)
      ∷ ("email:welcome", handle_email_welcome)
      ∷ ("email:password_reset", handle_email_password_reset)
      ∷ ("email:deadline_reminder", handle_email_deadline_reminder)
      ∷ ("email:password_changed", handle_email_password_changed)
      ∷ ("admin:import", handle_admin_import)
      ∷ ("employer:recalc_ratings", handle_employer_recalc_ratings)
      ∷ ("ses:bounce", handle_ses_bounce)
      ∷ ("ses:complaint", handle_ses_complaint)
      ∷ ("email:account_deleted", handle_email_account_deleted)
      ∷ ("email:account_restored", handle_email_account_restored)
      ∷ []

  unfoldable pub register_all : List (String × HandlerFunc) → Dispatcher → Option Dispatcher
  unfolding register
  register_all [] d = some d
  register_all ((job_type, handler) ∷ rest) d = elim (register job_type handler d) [
    | none ↦ none
    | some d' ↦ register_all rest d'
  ]

  -- `buildWorkerPool`; none is the panic of a duplicate.
  unfoldable pub build_worker_pool : Option Dispatcher
  unfolding register_all
  build_worker_pool = register_all jobs new_dispatcher
