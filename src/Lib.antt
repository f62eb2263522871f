-- ===== src/Lib.antt =====
-- gradconnect-api: the part of the API server that decides who may do what.
--
-- The server (cmd/api) answers HTTP requests. A request passes the middleware of
-- internal/app/middleware.go (CORS, rate limits, authentication, permission gates) and then a handler
-- of internal/app, which validates the decoded body with internal/validator, asks the limiter of
-- internal/ratelimit, and reads and writes the tables through the models of internal/data, several
-- statements at a time in a transaction (internal/app/helpers.go, inTransaction).
--
-- Which file models which part:
--   Ratelimit          internal/ratelimit/ratelimit.go: Allow, Peek, RecordFailure, Reset, cleanupLoop.
--                      The map is a function of the key, the clock an argument.
--   Validator          internal/validator/validator.go: the error map and Check; Validator/Rx has the
--                      regular expressions; matching by derivatives stands for MatchString of Go's
--                      regexp, and Validator/Rx/Correct proves it against the languages that they denote.
--   Filters            internal/data/filters.go: sorting, paging and the page metadata.
--   Common/Calendar    internal/data/types.go: the date type and its text form, YYYY-MM-DD; Data/Dates has
--                      its JSON text, and Common/Quoting the quotes of that and of Data/Timeline.
--   Store              the tables as lists of rows, statements as functions on them, the errors that
--                      the code tells apart, and inTransaction.
--   Data               a module for each model of internal/data: Users, Sessions, Tokens, Permissions,
--                      Tasks, Reviews, Applications, Bookmarks, Employers, Opportunities and
--                      Assessments, and Timeline.
--                      Data/Effects has what each method of the first five does when it returns no error,
--                      Data/Integrity every statement that writes, and the foreign keys on app_user;
--                      Data/Listing has what ORDER BY, LIMIT and OFFSET do with the rows of a list.
--   App/Http           readJSON, the error responses, the cookies and the user of a request.
--   App/Middleware     internal/app/middleware.go.
--   App/Auth           internal/app/auth.go, a module for each endpoint.
--   App/Profile        internal/app/users.go.
--   App/Queries        internal/app/helpers.go: the readers of the query string and of the path.
--   App/Reviews        internal/app/reviews.go; App/Applications has applications.go and bookmarks.go,
--                      App/Employers, App/Opportunities and App/Assessments the files of their names.
--   App/Mail           internal/app/helpers.go, sendIfDeliverable: what may be handed to the mailer.
--   App/Workers        internal/app/workers.go: the handlers of the background jobs.
--   App/Imports        internal/app/import_processor.go, over any processors of a row; App/Imports/Jobs has
--                      processImport and the statements of internal/data/import_jobs.go that it uses, on
--                      a table and a storage that are kept beside the world.
--   Worker             internal/worker/worker.go and jobs.go: the task queue, its workers and the dispatcher.
--                      Worker/Lifecycle has the steps that several workers and requests interleave.
--   Worker/Cron        internal/worker/cron.go: the daily jobs, over the hour and the date in Lagos. A job
--                      is a function of the world that returns a count.
--   Worker/SesEvents   internal/worker/ses_events.go: from a batch of SQS messages to tasks.
--   Examples           concrete inputs, on which the definitions run and the theorems are applied.
--
-- A handler is a function of the decoded request and of the world, which holds the tables, the
-- limiter, the clock and the number of the next query; it returns the response and the world. An
-- action of internal/data returns a result or an error. What the program calls and does not contain
-- is a field of Env: the driver, which may fail any numbered query, BEGIN or COMMIT, gen_random_uuid
-- and the cast of a text to a UUID, the full-text search, ILIKE and the collation of PostgreSQL, bcrypt,
-- the random tokens and SHA-256. A theorem that needs more of them than their types says so:
-- App/Auth/Passwords/Forgotten.IsUp, that no statement fails and random tokens can be drawn;
-- Worker/Poll.KeepsQueue, that the job handlers do not write the queue; Worker/Cron/Ratings, that no
-- statement fails. The mailer, and json.Unmarshal on the events of SES, are the fields of Services
-- (App/Workers) and of Events (Worker/SesEvents); what an import finds in the storage is a field of
-- Storage (App/Imports/Jobs).
--
-- Requests are handled one after another: what two transactions do to each other is not modelled; the
-- statements on the task queue may come in any order (Worker/Lifecycle). Not modelled are JSON text
-- other than that of dates and timelines, logs, the SameSite attribute, the share images, the object
-- storage, the figures of the administration (analytics.go, admin.go), and the upload of a file to
-- import. There is no fuel: the functions are recursive on lists, texts or expressions. Times are
-- nanoseconds in ℕ, dates are days; both count from the first of January of the year 0.
pub mod Common
pub mod Ratelimit
pub mod Validator
pub mod Filters
pub mod Store
pub mod Data
pub mod App
pub mod Worker
pub mod Examples
