-- ===== src/Turn.antt =====
-- internal/backend/turn.go: one turn of an interview, from the candidate's input to the
-- interviewer's reply, and internal/rpc/interview/server.go, which lets it in.
-- A turn runs on the database as it finds it; the writes of others during the turn are not
-- modelled. What is outside is a record: the speech recogniser, the language model, the text
-- functions of Go and, for each query, whether Postgres answers. The text-to-speech observer
-- runs beside the turn and has its own files; not modelled are the audio upload and the prompt's text.
pub mod Stream
pub mod Input
pub mod Release
pub mod Shown
pub mod Numbers
pub mod Speech
pub mod Sentences
pub mod Complete
pub mod Reply
use sabermatic_dev.Prelude.{
  ℕ, suc, ◌==◌, Bool, false, not, ◌||◌, Option, some, none, List, [], ◌∷◌, ◌++◌, String, str_eq,
  if◌then◌else◌, select, length,
}
use sabermatic_dev.Store.Rows.{Db, Message, candidate}
use sabermatic_dev.Store.Sessions.{
  find_session, acquire_generating_status, release_generating_status,
}
use sabermatic_dev.Store.Messages.{
  get_messages_by_session, get_max_seq_for_session, is_candidate_message,
}
use sabermatic_dev.Session.{verify_session_ownership}
use sabermatic_dev.Session.Errors.{
  Result, ok, err, ◌>>=◌, ◌>>◌, ensure, found_or, internal, turn_not_acquired,
}
use Stream.{
  Outside, Run, Event, after, ended, stream_interviewer_response, persist, turn_error,
  persist_failed, first_message_sent, acquire_query, session_query, messages_query, seq_query,
  coach_query, candidate_insert, deferred_release,
}
use Input.{Request, text_input, Heard, heard, rejected, candidate_input}

-- Step 3 and 4: what is loaded before the turn. `coach_query` also stands for a briefing that is
-- not enabled, which is loaded without a query.
unfoldable pub load : Outside → ℕ → Db → Result (List Message × ℕ)
load out id db = do
  ensure (out.answers session_query) internal
  session ← found_or (find_session id db.sessions) internal
  ensure (out.answers messages_query) internal
  ensure (out.answers seq_query) internal
  ensure (out.answers coach_query) internal
  ok (get_messages_by_session id db, get_max_seq_for_session id db)

unfoldable pub is_opening_question : List Message → Request → Bool
is_opening_question [] (text_input content) = str_eq content ""
is_opening_question _ _ = false

-- The last message is the candidate's: its reply was lost.
unfoldable pub is_crash_recovery : List Message → Bool
is_crash_recovery [] = false
is_crash_recovery (m ∷ []) = is_candidate_message m
is_crash_recovery (m ∷ n ∷ ms) = is_crash_recovery (n ∷ ms)

unfoldable pub first_message : List Message → List Event
first_message messages =
    if length (select is_candidate_message messages) == 0 then first_message_sent ∷ [] else []

abbrev pub said : ℕ → ℕ → String → String → Db → Message
said id sequence content method db = record {
  id = db.next_id;
  session = id;
  seq = suc sequence;
  role = candidate;
  content = content;
  input_method = some method;
}

-- Step 8, after the INSERT of the candidate's message `m`.
unfoldable pub answered : Outside → ℕ → List Message → Message → Db → Option Db → Run
answered out id messages m db none = ended (turn_error persist_failed ∷ []) db
answered out id messages m db (some db') =
    after (first_message messages)
      (stream_interviewer_response out id (messages ++ m ∷ []) m.seq db')

-- Step 7.
unfoldable pub persist_candidate : Outside → ℕ → List Message → ℕ → String → String → Db → Run
unfolding answered
persist_candidate out id messages sequence content method db =
    let m = said id sequence content method db in
    answered out id messages m db (persist out candidate_insert m db)

-- Step 6.
unfoldable pub process_input : Outside → ℕ → List Message → ℕ → Heard → Db → Run
unfolding persist_candidate
process_input out id messages sequence (rejected code) db = ended (turn_error code ∷ []) db
process_input out id messages sequence (heard events content method) db =
    after events (persist_candidate out id messages sequence content method db)

-- Step 5.
unfoldable pub take_turn : Outside → ℕ → Request → List Message → ℕ → Db → Run
unfolding process_input
take_turn out id request messages sequence db =
    if is_opening_question messages request || is_crash_recovery messages
    then stream_interviewer_response out id messages sequence db
    else process_input out id messages sequence (candidate_input out request) db

unfoldable pub loaded : Outside → ℕ → Request → Db → Result (List Message × ℕ) → Run
unfolding take_turn
loaded out id request db (err e) = record { db = db; events = []; result = err e; released = false }
loaded out id request db (ok (messages, sequence)) = take_turn out id request messages sequence db

-- Everything between the acquisition and the deferred release.
unfoldable pub run_turn : Outside → ℕ → Request → Db → Run
unfolding load loaded
run_turn out id request db = loaded out id request db (load out id db)

-- Step 2: what is deferred.
unfoldable pub release_on_exit : Outside → ℕ → Run → Db
release_on_exit out id r =
    if r.released || not (out.answers deferred_release)
    then r.db
    else release_generating_status id r.db

-- Step 1 is past: the row that was acquired, or none.
unfoldable pub run_acquired :
    Outside → ℕ → Request → Db × Option ℕ → Result (Unit {0}) × List Event × Db
unfolding run_turn release_on_exit
run_acquired out id request (db, none) = (err turn_not_acquired, [], db)
run_acquired out id request (db, some row) =
    let r = run_turn out id request db in (r.result, r.events, release_on_exit out id r)

unfoldable pub execute_turn : Outside → ℕ → Request → Db → Result (Unit {0}) × List Event × Db
unfolding run_acquired
execute_turn out id request db =
    if out.answers acquire_query
    then run_acquired out id request (acquire_generating_status id db)
    else (err internal, [], db)

-- SubmitTurn, for a user who is signed in and an id that parses.
unfoldable pub submit_turn : Outside → ℕ → ℕ → Request → Db → Result (Unit {0}) × List Event × Db
submit_turn out user id request db = elim (verify_session_ownership id user db) [
  | err e ↦ (err e, [], db)
  | ok _ ↦ execute_turn out id request db
]
