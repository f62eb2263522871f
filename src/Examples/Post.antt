-- ===== src/Examples/Post.antt =====
-- A bounced address.
use gradconnect_api.Common.{◌≡◌, ◌≢◌, refl, inl, true, any, ◌==◌, none, some, [], ◌∷◌, In}
use gradconnect_api.Store.{ok}
use gradconnect_api.Store.Rows.{raw}
use gradconnect_api.Data.Users
use gradconnect_api.App.Mail.{handed_over, send_if_deliverable}
use gradconnect_api.App.Workers.{Services, BouncePayload, handle_ses_bounce, mark_each}
use gradconnect_api.App.Workers.Bounces.{bounced, IsReport-not_sent}
use gradconnect_api.Worker.SesEvents.{Events, HasTask, process_batch, process_batch-HasTask}
use gradconnect_api.Examples.{test_env, world}

abbrev hard_bounce : BouncePayload
hard_bounce = record { bounce_type = "Permanent"; bounced_recipients = "alice@example.org" ∷ [] }

-- Every payload is that bounce, and every email goes out.
abbrev services : Services
services = record {
  send = λ recipient template_file load w. (none, w);
  unmarshal = λ keys text. none;
  unmarshal_bounce = λ payload. some hard_bounce;
  unmarshal_complaint = λ payload. none;
  process_import = λ id w. (none, w);
}

-- Before the bounce the address is sent to.
was_sent_to : (send_if_deliverable ⦃env = test_env⦄ "alice@example.org" world).0 ≡ ok handed_over
unfolding send_if_deliverable
was_sent_to = refl

is_known : any (λ r. r.email == "alice@example.org") world.db.app_user ≡ true
unfolding any
is_known = refl

succeeded : (handle_ses_bounce ⦃env = test_env⦄ services (raw "{}") world).0 ≡ none
unfolding handle_ses_bounce mark_each Users.mark_email_status
succeeded = refl

IsReport-not_sent_example :
    (send_if_deliverable ⦃env = test_env⦄ "alice@example.org"
      (handle_ses_bounce ⦃env = test_env⦄ services (raw "{}") world).1).0
    ≢ ok handed_over
IsReport-not_sent_example =
    IsReport-not_sent ⦃env = test_env⦄ services (raw "{}") "alice@example.org" world
      (bounced hard_bounce refl refl (inl refl)) is_known succeeded

-- Every text is an envelope round itself, and the event of a bounce.
abbrev events : Events
events = record {
  unmarshal_envelope = λ body. some body;
  unmarshal_event_type = λ message. some "Bounce";
}

acknowledged : In "report" (process_batch ⦃env = test_env⦄ events ("report" ∷ []) world).0
unfolding process_batch
acknowledged = inl refl

process_batch-HasTask_example :
    HasTask "ses:bounce" "report" (process_batch ⦃env = test_env⦄ events ("report" ∷ []) world).1
process_batch-HasTask_example =
    process_batch-HasTask ⦃env = test_env⦄ events ("report" ∷ []) world "report" "report" "Bounce"
      "ses:bounce" refl refl (inl (refl, refl)) acknowledged
