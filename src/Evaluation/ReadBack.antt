-- ===== src/Evaluation/ReadBack.antt =====
-- What GetEvaluation reads is what the job has stored.
use mathlib.Core.Path.{subst}
use sabermatic_dev.Prelude.{
  ℕ, suc, ◌≡◌, ◌≢◌, refl, ap, ◌∙◌, inl, inr, Bool, true, false, List, [], map, Option, none, some,
  String, ◌==◌, arith, All, select, Option-cases,
}
use sabermatic_dev.Store.Rows.{
  Db, InterviewSession, Message, AnnotationRow, EvaluationRow, evaluating, reviewed,
}
use sabermatic_dev.Store.Sessions.{find_session, update_session_status_only}
use sabermatic_dev.Store.Messages.{get_messages_by_session}
use sabermatic_dev.Store.Evaluations.{
  get_evaluation_by_session, order_annotations, get_annotations_by_evaluation, find_evaluation,
}
use sabermatic_dev.Evaluation.Parse.{EvaluationResult, parse, validate_result}
use sabermatic_dev.Evaluation.Checks.{IsAnnotation, validate_result_iff}
use sabermatic_dev.Evaluation.Worker.{
  of_parsed, ensure_valid, WorkerEnv, accept, known_seq, evaluate_session,
}
use sabermatic_dev.Evaluation.Annotated.{annotation_rows}
use sabermatic_dev.Evaluation.Joined.{
  numbered, AreKeyed, join-annotation_rows, select-annotation_rows, select-others,
}
use sabermatic_dev.Evaluation.Settled.{
  IsReviewed, Ending, rolled_back, empty, committed, evaluate_session-Ending, find_session-status,
}
use sabermatic_dev.Evaluation.Fetch.{
  reviewed_response, to_response, read_evaluation, respond, get_evaluation,
}
use sabermatic_dev.Session.{get_session, get_session_for_user}
use sabermatic_dev.Session.Errors.{Result, ok, ok_inj, Result-cases}

-- What is accepted has passed Validate.
accept-AreValid :
    (env : WorkerEnv) (reply : Option String) (ms : List Message) (result : EvaluationResult)
    → accept env reply ms ≡ ok result
    → All (IsAnnotation (known_seq ms)) result.annotations
unfolding accept
accept-AreValid env none ms result = λ h. absurd (ground arith)
accept-AreValid env (some raw) ms result =
    elim (Result-cases (of_parsed (parse env.Number env.int32_of env.unmarshal_input raw))) [
      | inl (e, x) ↦ rw (x, accept) (λ h. absurd (ground arith))
      | inr (read, a) ↦ elim (Option-cases (validate_result read (known_seq ms))) [
        | inr (problem, x) ↦ rw (a, x, accept, ensure_valid) (λ h. absurd (ground arith))
        | inl fine ↦
            rw (a, fine, accept, ensure_valid)
              (λ h.
                subst (λ (r : EvaluationResult). All (IsAnnotation (known_seq ms)) r.annotations)
                  (ok_inj h) ((validate_result_iff read (known_seq ms)).0 fine).1)
      ]
    ]

evaluation-kept :
    (id : ℕ) (d stored : Db)
    → d.evaluations ≡ stored.evaluations
    → get_evaluation_by_session id d ≡ get_evaluation_by_session id stored
unfolding get_evaluation_by_session
evaluation-kept id d stored e = ap (find_evaluation id) e

module _ (env : WorkerEnv) (unmarshal : String → Option (List String))
    (text_leb : String → String → Bool) where
  -- What the user is to read of a result: its annotations in the order of their messages.
  abbrev pub shown : EvaluationResult → EvaluationResult
  shown result = record {
    scores = result.scores;
    strengths = result.strengths;
    gaps = result.gaps;
    advice = result.advice;
    annotations = map to_response (order_annotations text_leb (map numbered result.annotations));
  }

  -- A result that was accepted from the language model, and that the user then reads.
  pub record IsReadBack (id user : ℕ) (reply : Option String) (ms : List Message) (d : Db)
      : Type 0 where
    pub result : EvaluationResult
    pub accepted : accept env reply ms ≡ ok result
    pub read : get_evaluation unmarshal text_leb id user d ≡ ok (reviewed_response (shown result))

  get_evaluation-owner :
      (id : ℕ) (t : InterviewSession) (db : Db)
      → find_session id db.sessions ≡ some t
      → get_evaluation unmarshal text_leb id t.user db ≡ respond unmarshal text_leb id t.status db
  unfolding get_evaluation get_session_for_user get_session
  get_evaluation-owner id t db found = rw (found, own) refl
    where
      own : (t.user == t.user) ≡ true
      own = ground arith

  respond-row :
      (id : ℕ) (row : EvaluationRow) (strengths gaps : List String) (db : Db)
      → get_evaluation_by_session id db ≡ some row
      → unmarshal row.strengths ≡ some strengths
      → unmarshal row.gaps ≡ some gaps
      → respond unmarshal text_leb id reviewed db
        ≡ ok (
            reviewed_response (record {
              scores = row.scores;
              strengths = strengths;
              gaps = gaps;
              advice = row.advice;
              annotations = map to_response (get_annotations_by_evaluation text_leb row.id db);
            }))
  unfolding respond read_evaluation
  respond-row id row strengths gaps db found a b = rw (found, a, b) refl

  -- The annotations in the tables are those of the result.
  stored-annotations :
      (id : ℕ) (reply : Option String) (ms : List Message) (db d : Db)
      → AreKeyed db.messages ms
      → All (λ (r : AnnotationRow). (r.evaluation == db.next_id) ≡ false) db.annotations
      → (r : IsReviewed env id reply ms db d)
      → get_annotations_by_evaluation text_leb db.next_id d
        ≡ order_annotations text_leb (map numbered r.result.annotations)
  unfolding get_annotations_by_evaluation
  stored-annotations id reply ms db d keyed fresh r =
      let rows = annotation_rows (suc db.next_id) db.next_id ms r.result.annotations in
      let new : select (λ (x : AnnotationRow). x.evaluation == db.next_id) d.annotations ≡ rows =
        ap (select (λ (x : AnnotationRow). x.evaluation == db.next_id))
          (r.annotations ∙ r.is_stored.annotations)
        ∙ select-others db.next_id db.annotations rows fresh
        ∙ select-annotation_rows (suc db.next_id) db.next_id ms r.result.annotations in
      rw
        (
          new,
          r.same_messages,
          r.is_stored.same_messages,
          join-annotation_rows (suc db.next_id) db.next_id db.messages ms r.result.annotations keyed
              (accept-AreValid env reply ms r.result r.accepted),
        )
        refl

  reviewed-IsReadBack :
      (id : ℕ) (s : InterviewSession) (reply : Option String) (ms : List Message) (db d : Db)
      → find_session id db.sessions ≡ some s
      → AreKeyed db.messages ms
      → All (λ (r : AnnotationRow). (r.evaluation == db.next_id) ≡ false) db.annotations
      → ((xs : List String) (text : String) → env.marshal xs ≡ some text → unmarshal text ≡ some xs)
      → IsReviewed env id reply ms db d
      → IsReadBack id s.user reply ms d
  reviewed-IsReadBack id s reply ms db d found keyed fresh inverse r = record {
    result = r.result;
    accepted = r.accepted;
    read =
        get_evaluation-owner id (record s { status = reviewed }) d
          (ap (find_session id) r.sessions
            ∙ find_session-status id s reviewed r.stored
                (ap (find_session id) r.is_stored.sessions ∙ found))
        ∙ respond-row id _ r.result.strengths r.result.gaps d
            (evaluation-kept id d r.stored r.evaluations ∙ r.is_stored.found)
            (inverse r.result.strengths r.is_stored.strengths r.is_stored.marshalled)
            (inverse r.result.gaps r.is_stored.gaps r.is_stored.marshalled_gaps)
        ∙ ap
            (λ l. ok (
              reviewed_response (record {
                scores = r.result.scores;
                strengths = r.result.strengths;
                gaps = r.result.gaps;
                advice = r.result.advice;
                annotations = map to_response l;
              })))
            (stored-annotations id reply ms db d keyed fresh r);
  }

  committed-IsReadBack :
      (id : ℕ) (s : InterviewSession) (reply : Option String) (db d : Db)
      (r : Result (Unit {0}) × Db)
      → Ending env id reply db r
      → r ≡ (ok tt, d)
      → find_session id db.sessions ≡ some s
      → get_messages_by_session id db ≢ []
      → AreKeyed db.messages (get_messages_by_session id db)
      → All (λ (r : AnnotationRow). (r.evaluation == db.next_id) ≡ false) db.annotations
      → ((xs : List String) (text : String) → env.marshal xs ≡ some text → unmarshal text ≡ some xs)
      → IsReadBack id s.user reply (get_messages_by_session id db) d
  unfolding update_session_status_only
  committed-IsReadBack id s reply db d r rolled_back same found some_messages keyed fresh inverse =
      absurd (ground (arith, ap (λ x. x.0) same))
  committed-IsReadBack id s reply db d r (empty none_there) same found some_messages keyed fresh
        inverse =
      absurd (some_messages none_there)
  committed-IsReadBack id s reply db d r (committed review) same found some_messages keyed fresh
        inverse =
      subst (λ x. IsReadBack id s.user reply (get_messages_by_session id db) x) (ap (λ x. x.1) same)
        (reviewed-IsReadBack id (record s { status = evaluating }) reply
          (get_messages_by_session id db) (update_session_status_only id evaluating db) _
          (find_session-status id s evaluating db found) keyed fresh inverse review)

  -- After an attempt that found the session with messages and no evaluation, and returned nil, the
  -- user of the session reads with GetEvaluation exactly the result that was accepted from the
  -- language model, its annotations in the order of their messages: if a message is the one that
  -- its id finds, the new id has no annotations, and JSON reads back the lists it has written.
  pub evaluate_session-IsReadBack :
      (id : ℕ) (s : InterviewSession) (reply : Option String) (db d : Db)
      → evaluate_session env id reply db ≡ (ok tt, d)
      → find_session id db.sessions ≡ some s
      → get_evaluation_by_session id db ≡ none
      → get_messages_by_session id db ≢ []
      → AreKeyed db.messages (get_messages_by_session id db)
      → All (λ (r : AnnotationRow). (r.evaluation == db.next_id) ≡ false) db.annotations
      → ((xs : List String) (text : String) → env.marshal xs ≡ some text → unmarshal text ≡ some xs)
      → IsReadBack id s.user reply (get_messages_by_session id db) d
  evaluate_session-IsReadBack id s reply db d done found unseen =
      committed-IsReadBack id s reply db d (evaluate_session env id reply db)
        (evaluate_session-Ending env id s reply db found unseen) done found
