-- ===== src/Worker/SesEvents.antt =====
-- internal/worker/ses_events.go: the events of SES that arrive through SQS. What json.Unmarshal reads of
-- an envelope and of an event are the fields of Events; receiving, and waiting after an error, are
-- left out.
use gradconnect_api.Common.{
  String, ◌≡◌, refl, ◌⊎◌, inl, inr, Option, none, some, List, [], ◌∷◌, ◌++◌, ◌==◌, is_some,
  if◌then◌else◌, Bool-cases, Option-cases, In,
}
use gradconnect_api.Store.{Result, ok, err, Env, World, query}
use gradconnect_api.Store.Rows.{Task, pending, raw}
use gradconnect_api.Data.Tasks

-- The message of an SNS envelope, and the eventType of an SES event.
pub record Events : Type 0 where
  pub unmarshal_envelope : String → Option String
  pub unmarshal_event_type : String → Option String

-- The other types are acknowledged without a task.
abbrev pub job_type_of : String → Option String
job_type_of event_type =
    if event_type == "Bounce"
    then some "ses:bounce"
    else if event_type == "Complaint"
    then some "ses:complaint"
    else none

abbrev pub enqueued : Result (Unit {0}) × World → Option String × World
enqueued (ok done, w) = (none, w)
enqueued (err e, w) = (some "enqueuing task", w)

-- The job type for a report of SES, as ses.go documents the two.
abbrev pub IsReported : String → String → Type 0
IsReported event_type job_type =
    ((event_type ≡ "Bounce") × (job_type ≡ "ses:bounce"))
    ⊎ ((event_type ≡ "Complaint") × (job_type ≡ "ses:complaint"))

IsReported-job_type_of :
    (event_type job_type : String)
    → IsReported event_type job_type
    → job_type_of event_type ≡ some job_type
IsReported-job_type_of event_type job_type (inl (e, j)) = rw (e, j) refl
IsReported-job_type_of event_type job_type (inr (e, j)) = rw (e, j) refl

-- A task of the type that passes the text on.
abbrev pub HasTask : String → String → World → Type 0
HasTask job_type message w =
    (t : Task) × In t w.db.task_queue
    × (t.job_type ≡ job_type)
    × (t.payload ≡ raw message)
    × (t.status ≡ pending)

module _ ⦃env : Env⦄ (events : Events) where
  abbrev pub enqueue_as : Option String → String → World → Option String × World
  enqueue_as none message w = (none, w)
  enqueue_as (some job_type) message w = enqueued (Tasks.insert job_type (raw message) w)

  abbrev pub process_event : Option String → String → World → Option String × World
  process_event none message w = (some "unmarshaling SES event discriminator", w)
  process_event (some event_type) message w = enqueue_as (job_type_of event_type) message w

  abbrev pub process_envelope : Option String → World → Option String × World
  process_envelope none w = (some "unmarshaling SNS envelope", w)
  process_envelope (some message) w = process_event (events.unmarshal_event_type message) message w

  -- `processSESMessage`
  unfoldable pub process_ses_message : String → World → Option String × World
  unfolding Tasks.insert
  process_ses_message body = process_envelope (events.unmarshal_envelope body)

  -- The messages of one batch of `PollSESEvents`, and those of them that it deletes from SQS.
  unfoldable pub process_batch : List String → World → List String × World
  unfolding process_ses_message
  process_batch [] w = ([], w)
  process_batch (body ∷ bodies) w =
      let (failed, w1) = process_ses_message body w in
      let (deleted, w2) = process_batch bodies w1 in
      (if is_some failed then deleted else body ∷ deleted, w2)

  In-last : {A : Type 0} (xs : List A) (a : A) → In a (xs ++ a ∷ [])
  In-last [] a = inl refl
  In-last (x ∷ xs) a = inr (In-last xs a)

  In-before : {A : Type 0} (xs ys : List A) (a : A) → In a xs → In a (xs ++ ys)
  In-before [] ys a i = absurd i
  In-before (x ∷ xs) ys a (inl e) = inl e
  In-before (x ∷ xs) ys a (inr i) = inr (In-before xs ys a i)

  insert_keeps :
      (job_type text : String) (w : World) (t : Task)
      → In t w.db.task_queue
      → In t (Tasks.insert job_type (raw text) w).1.db.task_queue
  unfolding Tasks.insert query
  insert_keeps job_type text w t i = elim (Bool-cases (env.fails w.queries)) [
    | inl e ↦ rw e i
    | inr e ↦ rw e (In-before w.db.task_queue _ t i)
  ]

  enqueued_keeps :
      (r : Result (Unit {0}) × World) (t : Task)
      → In t r.1.db.task_queue
      → In t (enqueued r).1.db.task_queue
  enqueued_keeps (ok _, w) t i = i
  enqueued_keeps (err e, w) t i = i

  event_keeps :
      (event_type : Option String) (message : String) (w : World) (t : Task)
      → In t w.db.task_queue
      → In t (process_event event_type message w).1.db.task_queue
  event_keeps none message w t i = i
  event_keeps (some event_type) message w t i = as_keeps (job_type_of event_type)
    where
      as_keeps : (job : Option String) → In t (enqueue_as job message w).1.db.task_queue
      as_keeps none = i
      as_keeps (some job_type) =
          enqueued_keeps (Tasks.insert job_type (raw message) w) t
            (insert_keeps job_type message w t i)

  envelope_keeps :
      (message : Option String) (w : World) (t : Task)
      → In t w.db.task_queue
      → In t (process_envelope message w).1.db.task_queue
  envelope_keeps none w t i = i
  envelope_keeps (some message) w t i =
      event_keeps (events.unmarshal_event_type message) message w t i

  batch_keeps :
      (bodies : List String) (w : World) (t : Task)
      → In t w.db.task_queue
      → In t (process_batch bodies w).1.db.task_queue
  unfolding process_batch process_ses_message
  batch_keeps [] w t i = i
  batch_keeps (body ∷ bodies) w t i =
      batch_keeps bodies (process_ses_message body w).1 t
        (envelope_keeps (events.unmarshal_envelope body) w t i)

  -- A message of a job type that was processed without an error has its task.
  processed-HasTask :
      (body message event_type job_type : String) (w : World)
      → events.unmarshal_envelope body ≡ some message
      → events.unmarshal_event_type message ≡ some event_type
      → job_type_of event_type ≡ some job_type
      → (process_ses_message body w).0 ≡ none
      → HasTask job_type message (process_ses_message body w).1
  unfolding process_ses_message Tasks.insert query
  processed-HasTask body message event_type job_type w is read job done =
      elim (Bool-cases (env.fails w.queries)) [
        | inl e ↦ absurd (cc (rw (process_ses_message, is, read, job, e) at done))
        | inr e ↦ rw (is, read, job, e) (_, In-last w.db.task_queue _, refl, refl, refl)
      ]

  -- A report of a bounce is deleted from SQS only once a pending ses:bounce task with its text is in the
  -- queue, and a report of a complaint only once a pending ses:complaint task with it is.
  pub process_batch-HasTask :
      (bodies : List String) (w : World) (body message event_type job_type : String)
      → events.unmarshal_envelope body ≡ some message
      → events.unmarshal_event_type message ≡ some event_type
      → IsReported event_type job_type
      → In body (process_batch bodies w).0
      → HasTask job_type message (process_batch bodies w).1
  unfolding process_batch
  process_batch-HasTask [] w body message event_type job_type is read job i = absurd i
  process_batch-HasTask (x ∷ xs) w body message event_type job_type is read job i =
      let next = (process_ses_message x w).1 in
      let later : In body (process_batch xs next).0
          → HasTask job_type message (process_batch xs next).1 =
        process_batch-HasTask xs next body message event_type job_type is read job in
      elim (Option-cases (process_ses_message x w).0) [
        | inr (_, failed) ↦ later (rw (process_batch, failed) at i)
        | inl done ↦ elim (rw (process_batch, done) at i) [
          | inr behind ↦ later behind
          | inl here ↦
              let (t, queued, kind, text, status) =
                processed-HasTask x message event_type job_type w (rw (← here) is) read
                  (IsReported-job_type_of event_type job_type job) done in
              (t, batch_keeps xs next t queued, kind, text, status)
        ]
      ]
