-- ===== src/Session.antt =====
-- internal/backend/session.go and errors.go: the life of an interview session.
-- A method runs in one transaction and returns its error with the database that it leaves: the
-- old one after a rollback. Failures of Postgres itself are not modelled; log lines, spans and
-- analytics events are left out.
pub mod Errors
pub mod Create
pub mod Rows
pub mod Reservation
pub mod Failure
pub mod Lifecycle
pub mod End
pub mod Wait
pub mod Privacy
use sabermatic_dev.Prelude.{ℕ, Bool, List, ltb, ◌==◌, if◌then◌else◌}
use Errors.{Result, ok, ◌>>=◌, ◌>>◌, ensure, found_or, session_not_found, session_not_owned}
use sabermatic_dev.Store.Rows.{Db, InterviewSession, Message}
use sabermatic_dev.Store.Sessions.{find_session, archive_sessions_bulk}
use sabermatic_dev.Store.Messages.{get_messages_by_session, get_messages_by_session_offset}

unfoldable pub get_session : ℕ → Db → Result InterviewSession
get_session id db = found_or (find_session id db.sessions) session_not_found

unfoldable pub get_session_for_user : ℕ → ℕ → Db → Result InterviewSession
unfolding get_session
get_session_for_user id user db = do
  session ← get_session id db
  ensure (session.user == user) session_not_owned
  ok session

unfoldable pub verify_session_ownership : ℕ → ℕ → Db → Result (Unit {0})
verify_session_ownership id user db = do
  session ← found_or (find_session id db.sessions) session_not_found
  ensure (session.user == user) session_not_owned

unfoldable pub get_transcript : ℕ → ℕ → Db → Result (List Message)
unfolding get_session_for_user
get_transcript id user db = do
  session ← get_session_for_user id user db
  ok (get_messages_by_session id db)

unfoldable pub archive_sessions : ℕ → List ℕ → Bool → Db → Db
archive_sessions user ids archive db = archive_sessions_bulk archive ids user db

-- The messages of GetSessionState: those after a positive offset, or all.
unfoldable pub state_messages : ℕ → ℕ → Db → List Message
state_messages id known db =
    if ltb 0 known
    then get_messages_by_session_offset id known db
    else get_messages_by_session id db

-- GetSessionState: the session's fields are those of its row.
unfoldable pub get_session_state : ℕ → ℕ → Db → Result (InterviewSession × List Message)
unfolding state_messages
get_session_state id known db = do
  session ← found_or (find_session id db.sessions) session_not_found
  ok (session, state_messages id known db)
