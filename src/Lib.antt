-- ===== src/Lib.antt =====
-- Sabermatic (drill): practice interviews in system design, paid in minutes.
--
-- A user has grants of minutes, which a ledger books. Creating an interview session reserves its
-- minutes; ending it gives back what was not used; a session that the platform fails gives back
-- all. Stripe's events add grants and change plans. In a session the candidate takes turns, and a
-- language model answers each; the column `status` keeps a session to one turn at a time.
--
-- The parts, and what they model:
-- - Billing: internal/billing/plans.go and entitlement.go, the plans and what they allow.
-- - Store: internal/db, the tables as lists of rows and each SQL query as a function on the
--   record Db. Store.Grants has grants.sql.go (Reserve: ReserveMinutes; Refund: the two refunds;
--   Create: the queries that add grants; Balance: those that read them), Store.Sessions has
--   sessions.sql.go and interview.sql.go, Store.Messages messages.sql.go, Store.Users what the
--   webhooks call of users.sql.go, Store.Accounts the rest of users.sql.go with
--   auth_sessions.sql.go and oauth_accounts.sql.go, Store.Evaluations evaluations.sql.go,
--   Store.Educators educator_analyses.sql.go.
-- - Ledger: proofs on the queries of grants. Ledger.Books has the invariant: the minutes that remain
--   of a grant are what its ledger entries add up to.
-- - Webhook: internal/backend/billing.go, HandleStripeWebhook with its four handlers. A webhook's
--   event is a record of its kind, id and values; uuid.Parse is a parameter.
-- - Session: internal/backend/session.go, evaluation.go and jobs/cleanup.go: CreateSession, the
--   ways to end a session, the wait for a running generation, retries and the clean-up jobs.
--   Session.Lifecycle has all that happens to sessions as operations in any order, and
--   Session.Lifecycle.Abstract the machine of one session's statuses that they implement.
-- - Turn: internal/backend/turn.go with internal/interview/observer: ExecuteTurn and the stream of
--   the reply, and SubmitTurn of internal/rpc/interview/server.go. Turn.Speech has OnToken of
--   tts_accumulator.go, apart from the turn.
-- - Evaluation: what a language model hands in, internal/evaluation/parse.go, internal/coach/parse.go
--   and internal/educator/parse.go; the job that stores an evaluation, internal/jobs/evaluate.go with
--   error_handler.go (Worker); how an evaluation is read, internal/backend/evaluation.go (Fetch).
-- - Account: internal/backend/auth.go, oauth.go and user.go, sign-up, sign-in and
--   passwords, with the signed tokens of internal/auth/tokens.go (Token) and the sign-in by a
--   provider (OauthLogin). Account.Later has the methods on accounts as operations in any order.
-- - Education: internal/backend/educator.go, the model answer that a user asks for once the session
--   is reviewed, and its job, internal/jobs/educator.go (Worker).
-- - Coach: internal/backend/coach.go and internal/jobs/coach.go, the analysis over all reviewed
--   sessions of a user, with Store.Coaches for its queries.
-- - Prelude: the names and lemmas that all share. Tests: the theorems at concrete data.
--
-- How the code is modelled. Ids are numbers given out in order, for UUIDs. Times are microseconds.
-- A query is one step on Db: a query that a constraint refuses is `none` and writes nothing, a
-- method that rolls back returns the old Db. Columns that Postgres holds as int4 are numbers; the
-- sums that a query casts to int are checked against 31 bits, and the int32 conversions of bought
-- and granted minutes wrap as in Go. Parameters stand for what is not in the repository: River's
-- InsertTx, the language model, the recogniser of speech, Go's text functions on spaces, case, MIME
-- types and addresses, the calendar, the JSON coder, bcrypt, SHA-256 and HMAC, base64 and hex, how
-- UUIDs and integers are printed and read, the rendering of mails, the database's collation. The
-- attempts of one job come one after another. In a method of sessions, of accounts and of jobs
-- Postgres answers every query, but for the constraints; in a turn each query may fail. Tokens of
-- mails and the texts of mails are lists of bytes.
--
-- Fuel. The wait for a generation is a loop on fuel, 122 polls. It looks at the clock each half
-- second and gives up after a minute, so 121 pauses are past the deadline; the pause between two
-- polls, in which others write, is a parameter. The loop that cuts a reply into sentences has a
-- turn for each byte of the buffer and one more; each sentence takes a byte at least.
--
-- Not modelled: the writes of others within a turn or a method, the goroutine of the speech
-- synthesis, audio upload, prompts, log lines, spans and analytics but for the first message of a
-- session, the table llm_calls, the texts of questions, the role and the created_at and updated_at
-- of users, the methods on questions, images, the middleware and the callback of OAuth, the
-- handlers that only convert messages, and the web client.
pub mod Prelude
pub mod Billing
pub mod Store
pub mod Ledger
pub mod Webhook
pub mod Session
pub mod Turn
pub mod Evaluation
pub mod Account
pub mod Education
pub mod Tests
pub mod Coach
