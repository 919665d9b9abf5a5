-- ===== src/Tests/Evaluations.antt =====
-- The theorems on the life of a session and its evaluation at concrete data.
use sabermatic_dev.Prelude.{
  ◌≡◌, ◌≢◌, ◌⊎◌, refl, true, none, some, [], ◌∷◌, ◌++◌, List, Option, String, arith,
}
use sabermatic_dev.Prelude.Int.{ℤ, pos}
use sabermatic_dev.Store.Rows.{Db, InterviewSession, completed, active, reviewed, evaluation_failed}
use sabermatic_dev.Store.Sessions.{find_session, update_session_status_only}
use sabermatic_dev.Store.Messages.{get_messages_by_session, sort_by_seq, insert_by_seq}
use sabermatic_dev.Store.Evaluations.{
  get_evaluation_by_session, find_evaluation, insert_evaluation, is_fine, has_evaluation,
  insert_annotation, find_message, has_message, get_annotations_by_evaluation, order_annotations,
  join_messages,
}
use sabermatic_dev.Store.Accounts.{get_user_by_id, find_user, is_kept}
use sabermatic_dev.Session.{get_session, get_session_for_user}
use sabermatic_dev.Session.Errors.{ok, settle}
use sabermatic_dev.Session.Lifecycle.{run, acquire, release, complete, mark_reviewed, later}
use sabermatic_dev.Session.Lifecycle.Follows.{Follows}
use sabermatic_dev.Session.Lifecycle.Refines.{run-Follows}
use sabermatic_dev.Evaluation.Parse.{
  Scores, RawToolInput, EvaluationResult, parse, parse_input, validate_result, check_scores,
  check_annotations, valid_type,
}
use sabermatic_dev.Evaluation.Fetch.{
  reviewed_response, get_evaluation, get_evaluation_private, respond, read_evaluation,
}
use sabermatic_dev.Evaluation.Worker.{
  WorkerEnv, evaluate_session, evaluate_unless, evaluate_found, evaluate_messages, review, accept,
  persist, attempts, known_seq, seq_map, later_or, is_seq, is_key, of_parsed, ensure_valid,
  insert_annotations, insert_found,
}
use sabermatic_dev.Evaluation.Settled.{
  Ending, IsSettled, evaluate_session-Ending, attempts-IsSettled,
}
use sabermatic_dev.Evaluation.ReadBack.{IsReadBack, evaluate_session-IsReadBack}
use sabermatic_dev.Tests.Data.{store, interview}

run-Follows_example : Follows 5 (interview active) (
    run
      (λ job jobs. jobs ++ job ∷ [])
      (acquire 5 ∷ later 9 ∷ release 5 ∷ complete 5 3 ∷ mark_reviewed 5 ∷ [])
      (store (interview active ∷ [])))
unfolding find_session
run-Follows_example =
    run-Follows (λ job jobs. jobs ++ job ∷ []) 5 (interview active)
      (acquire 5 ∷ later 9 ∷ release 5 ∷ complete 5 3 ∷ mark_reviewed 5 ∷ [])
      (store (interview active ∷ [])) refl

abbrev scores : Scores ℤ
scores = record {
  requirements = pos 3;
  architecture = pos 4;
  deep_dive = pos 2;
  scalability = pos 5;
  communication = pos 3;
  overall = pos 3;
}

abbrev input : RawToolInput ℤ
input = record {
  scores = some scores;
  strengths = none;
  gaps = some [];
  advice = "Estimate first.";
  annotations = (record { message_seq = pos 1; kind = "note"; content = "A start." }) ∷ [];
}

-- Only the empty list is written, so that what is written is read back.
abbrev write : List String → Option String
write [] = some "[]"
write (x ∷ xs) = none

abbrev read : String → Option (List String)
read text = some []

read-write : (xs : List String) (text : String) → write xs ≡ some text → read text ≡ some xs
read-write [] text h = refl
read-write (x ∷ xs) text h = absurd (ground arith)

abbrev worker : WorkerEnv
worker = record {
  Number = ℤ;
  int32_of = λ n. n;
  unmarshal_input = λ raw. some input;
  marshal = write;
  evaluation_email = λ session result user. record {
    to = user.email;
    subject = "Evaluation";
    text = [];
    html = [];
  };
  insert_job = λ job jobs. jobs ++ job ∷ [];
}

abbrev finished : Db
finished = store (interview completed ∷ [])

in_table : find_session 5 finished.sessions ≡ some (interview completed)
unfolding find_session
in_table = refl

unseen : get_evaluation_by_session 5 finished ≡ none
unfolding get_evaluation_by_session find_evaluation
unseen = refl

evaluate_session-Ending_example :
    Ending worker 5 (some "{}") finished (evaluate_session worker 5 (some "{}") finished)
evaluate_session-Ending_example =
    evaluate_session-Ending worker 5 (interview completed) (some "{}") finished in_table unseen

attempts-IsSettled_example : IsSettled 5 (attempts worker 5 (none ∷ some "{}" ∷ []) finished)
attempts-IsSettled_example =
    attempts-IsSettled worker 5 (interview completed) (none ∷ some "{}" ∷ []) finished in_table
      unseen

returned :
    evaluate_session worker 5 (some "{}") finished
    ≡ (ok tt, (evaluate_session worker 5 (some "{}") finished).1)
unfolding evaluate_session evaluate_unless evaluate_found evaluate_messages review accept persist
    settle known_seq seq_map later_or is_seq is_key of_parsed ensure_valid insert_annotations
    insert_found get_evaluation_by_session find_evaluation find_session get_messages_by_session
    sort_by_seq insert_by_seq parse parse_input validate_result check_scores check_annotations
    valid_type insert_evaluation is_fine has_evaluation insert_annotation find_message has_message
    get_user_by_id find_user is_kept update_session_status_only
returned = refl

messages_there : get_messages_by_session 5 finished ≢ []
unfolding get_messages_by_session sort_by_seq insert_by_seq
messages_there = λ e. absurd (ground (arith, e))

evaluate_session-IsReadBack_example :
    IsReadBack worker read
      (λ s t. true)
      5
      1
      (some "{}")
      (get_messages_by_session 5 finished)
      (evaluate_session worker 5 (some "{}") finished).1
unfolding get_messages_by_session sort_by_seq insert_by_seq find_message
evaluate_session-IsReadBack_example =
    evaluate_session-IsReadBack worker read (λ s t. true) 5 (interview completed) (some "{}")
      finished (evaluate_session worker 5 (some "{}") finished).1 returned in_table unseen
      messages_there (refl, tt) tt read-write

abbrev evaluated : Db
evaluated = record (store (interview reviewed ∷ [])) {
  evaluations =
      (record {
        id = 8;
        session = 5;
        scores = scores;
        strengths = "[]";
        gaps = "[]";
        advice = "Estimate first.";
        created_at = 900;
      })
      ∷ [];
}

abbrev shown_result : EvaluationResult
shown_result = record {
  scores = scores;
  strengths = [];
  gaps = [];
  advice = "Estimate first.";
  annotations = [];
}

get_evaluation_private_example :
    (s : InterviewSession) × (find_session 5 evaluated.sessions ≡ some s)
    × (s.user ≡ 1)
    × ((s.status ≡ reviewed) ⊎ (s.status ≡ evaluation_failed))
unfolding get_evaluation get_session_for_user get_session find_session respond read_evaluation
    get_evaluation_by_session find_evaluation get_annotations_by_evaluation order_annotations
    join_messages
get_evaluation_private_example =
    get_evaluation_private read (λ s t. true) 5 1 evaluated (reviewed_response shown_result) refl
