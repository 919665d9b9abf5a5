-- ===== src/Evaluation/Worker.antt =====
-- internal/jobs/evaluate.go and error_handler.go: the job that evaluates a session.
-- An attempt gets the reply of the language model, `none` if the call fails; the row of llm_calls
-- that the call logs is left out. Writes outside the transaction stay when it is rolled back.
use sabermatic_dev.Prelude.{
  ℕ, Bool, true, false, List, [], ◌∷◌, Option, none, some, String, ◌==◌, if◌then◌else◌,
}
use sabermatic_dev.Prelude.Int.{ℤ, pos}
use sabermatic_dev.Store.Rows.{
  Db, InterviewSession, Message, EvaluationRow, User, Job, Email, evaluating, reviewed,
  evaluation_failed, send_email,
}
use sabermatic_dev.Store.Sessions.{find_session, update_session_status_only}
use sabermatic_dev.Store.Messages.{get_messages_by_session}
use sabermatic_dev.Store.Accounts.{get_user_by_id}
use sabermatic_dev.Store.Evaluations.{
  get_evaluation_by_session, insert_evaluation, insert_annotation,
}
use sabermatic_dev.Session.Errors.{Result, ok, err, settle, found_or, ◌>>=◌, ◌>>◌, internal}
use sabermatic_dev.Evaluation.Parse.{
  RawToolInput, EvaluationResult, Annotation, Parsed, parsed, refused, Problem, parse,
  validate_result,
}

-- What the worker calls: encoding/json, the email's text, River's insert.
pub record WorkerEnv : Type 1 where
  pub Number : Type 0
  pub int32_of : Number → ℤ
  pub unmarshal_input : String → Option (RawToolInput Number)
  pub marshal : List String → Option String
  pub evaluation_email : InterviewSession → EvaluationResult → User → Email
  pub insert_job : Job → List Job → List Job

unfoldable pub is_seq : ℤ → ℕ → Bool
is_seq (pos n) seq = n == seq
is_seq other seq = false

unfoldable pub later_or : Option ℕ → Bool → ℕ → Option ℕ
later_or (some id) here own = some id
later_or none here own = if here then some own else none

-- seqMap[seq]: the map is filled in the order of the messages, so the last one counts.
unfoldable pub seq_map : List Message → ℤ → Option ℕ
unfolding is_seq later_or
seq_map [] seq = none
seq_map (m ∷ ms) seq = later_or (seq_map ms seq) (is_seq seq m.seq) m.id

unfoldable pub is_key : Option ℕ → Bool
is_key none = false
is_key (some id) = true

unfoldable pub known_seq : List Message → ℤ → Bool
unfolding is_key
known_seq messages seq = is_key (seq_map messages seq)

unfoldable pub of_parsed : Parsed EvaluationResult → Result EvaluationResult
of_parsed (refused p) = err internal
of_parsed (parsed result) = ok result

unfoldable pub ensure_valid : Option Problem → Result (Unit {0})
ensure_valid none = ok tt
ensure_valid (some p) = err internal

-- An annotation whose message is unknown is passed over.
unfoldable pub insert_found : ℕ → Annotation ℤ → Option ℕ → Db → Result Db
insert_found evaluation a none db = ok db
insert_found evaluation a (some message) db =
    found_or (insert_annotation evaluation message a.kind a.content db) internal

unfoldable pub insert_annotations : ℕ → List Message → List (Annotation ℤ) → Db → Result Db
unfolding insert_found
insert_annotations evaluation messages [] db = ok db
insert_annotations evaluation messages (a ∷ rest) db = do
  stored ← insert_found evaluation a (seq_map messages a.message_seq) db
  insert_annotations evaluation messages rest stored

module _ (env : WorkerEnv) where
  -- What the model handed in, parsed and validated.
  unfoldable pub accept : Option String → List Message → Result EvaluationResult
  unfolding of_parsed ensure_valid known_seq parse
  accept reply messages = do
    raw ← found_or reply internal
    result ← of_parsed (parse env.Number env.int32_of env.unmarshal_input raw)
    ensure_valid (validate_result result (known_seq messages))
    ok result

  -- The rows of the evaluation.
  unfoldable pub persist : ℕ → List Message → EvaluationResult → Db → Result Db
  unfolding insert_annotations
  persist id messages result db = do
    strengths ← found_or (env.marshal result.strengths) internal
    gaps ← found_or (env.marshal result.gaps) internal
    stored ← found_or (insert_evaluation id result.scores strengths gaps result.advice db) internal
    insert_annotations stored.1 messages result.annotations stored.0

  -- The transaction.
  unfoldable pub review :
      ℕ → InterviewSession → List Message → Option String → Db → Result (Unit {0} × Db)
  unfolding accept persist
  review id session messages reply db = do
    result ← accept reply messages
    stored ← persist id messages result db
    let marked = update_session_status_only id reviewed stored
    user ← found_or (get_user_by_id session.user marked) internal
    ok (
      tt,
      record marked {
        jobs = env.insert_job (send_email (env.evaluation_email session result user)) marked.jobs;
      },
    )

  unfoldable pub evaluate_messages :
      ℕ → InterviewSession → List Message → Option String → Db → Result (Unit {0}) × Db
  unfolding settle review
  evaluate_messages id session [] reply db =
      (ok tt, update_session_status_only id evaluation_failed db)
  evaluate_messages id session (m ∷ ms) reply db =
      let marked = update_session_status_only id evaluating db in
      settle (review id session (m ∷ ms) reply marked) marked

  unfoldable pub evaluate_found :
      ℕ → Option InterviewSession → Option String → Db → Result (Unit {0}) × Db
  unfolding evaluate_messages
  evaluate_found id none reply db = (err internal, db)
  evaluate_found id (some session) reply db =
      evaluate_messages id session (get_messages_by_session id db) reply db

  unfoldable pub evaluate_unless :
      ℕ → Option EvaluationRow → Option String → Db → Result (Unit {0}) × Db
  unfolding evaluate_found
  evaluate_unless id (some row) reply db = (ok tt, db)
  evaluate_unless id none reply db = evaluate_found id (find_session id db.sessions) reply db

  -- EvaluateSessionWorker.Work
  unfoldable pub evaluate_session : ℕ → Option String → Db → Result (Unit {0}) × Db
  unfolding evaluate_unless
  evaluate_session id reply db = evaluate_unless id (get_evaluation_by_session id db) reply db

  -- HandleError, after the last attempt.
  unfoldable pub give_up : ℕ → Db → Db
  give_up id db = update_session_status_only id evaluation_failed db

  unfoldable pub after_attempt : (Db → Db) → Result (Unit {0}) × Db → Db
  after_attempt again (ok u, db) = db
  after_attempt again (err e, db) = again db

  -- The attempts of a job, one for each reply, until one returns nil.
  unfoldable pub attempts : ℕ → List (Option String) → Db → Db
  unfolding give_up after_attempt
  attempts id [] db = give_up id db
  attempts id (reply ∷ replies) db =
      after_attempt (attempts id replies) (evaluate_session id reply db)
