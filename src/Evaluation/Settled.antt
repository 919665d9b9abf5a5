-- ===== src/Evaluation/Settled.antt =====
-- internal/jobs/evaluate.go and error_handler.go: how an attempt ends, and how a job does.
use mathlib.Core.Path.{subst}
use sabermatic_dev.Prelude.{
  ℕ, ◌≡◌, refl, sym, ap, ◌∙◌, ◌⊎◌, inl, inr, true, List, [], ◌∷◌, Option, none, some, String, ◌==◌,
  arith, Option-cases,
}
use sabermatic_dev.Store.Rows.{
  Db, InterviewSession, Message, Status, evaluating, reviewed, evaluation_failed,
}
use sabermatic_dev.Store.Sessions.{find_session, update_session_status_only}
use sabermatic_dev.Store.Messages.{get_messages_by_session}
use sabermatic_dev.Store.Accounts.{get_user_by_id}
use sabermatic_dev.Store.Evaluations.{get_evaluation_by_session}
use sabermatic_dev.Session.Rows.{changed, find_session-update_where, find_session-id}
use sabermatic_dev.Evaluation.Parse.{EvaluationResult}
use sabermatic_dev.Session.Errors.{Result, Error, ok, err, settle, ok_inj, Result-cases}
use sabermatic_dev.Evaluation.Worker.{
  WorkerEnv, accept, persist, review, evaluate_messages, evaluate_found, evaluate_unless,
  evaluate_session, give_up, after_attempt, attempts,
}
use sabermatic_dev.Evaluation.Stored.{IsStored, persist-IsStored}

-- What a transaction that is committed has written.
pub record IsReviewed (env : WorkerEnv) (id : ℕ) (reply : Option String) (messages : List Message)
    (db d : Db) : Type 0 where
  pub result : EvaluationResult
  pub accepted : accept env reply messages ≡ ok result
  pub stored : Db
  pub is_stored : IsStored env id messages result db stored
  pub sessions : d.sessions ≡ (update_session_status_only id reviewed stored).sessions
  pub evaluations : d.evaluations ≡ stored.evaluations
  pub annotations : d.annotations ≡ stored.annotations
  pub same_messages : d.messages ≡ stored.messages

review-IsReviewed :
    (env : WorkerEnv) (id : ℕ) (session : InterviewSession) (messages : List Message)
    (reply : Option String) (db : Db) (v : Unit {0} × Db)
    → review env id session messages reply db ≡ ok v
    → IsReviewed env id reply messages db v.1
unfolding review update_session_status_only
review-IsReviewed env id session messages reply db v =
    elim (Result-cases (accept env reply messages)) [
      | inl (e, x) ↦ rw (x, review) (λ h. absurd (ground arith))
      | inr (result, a) ↦ elim (Result-cases (persist env id messages result db)) [
        | inl (e, x) ↦ rw (a, x, review) (λ h. absurd (ground arith))
        | inr (stored, b) ↦
            elim (Option-cases
              (get_user_by_id session.user (update_session_status_only id reviewed stored))) [
                | inl x ↦ rw (a, b, x, review) (λ h. absurd (ground arith))
                | inr (user, c) ↦
                    rw (a, b, c, review)
                      (λ h.
                        subst (λ (w : Unit {0} × Db). IsReviewed env id reply messages db w.1)
                          (ok_inj h)
                          (record {
                            result = result;
                            accepted = a;
                            stored = stored;
                            is_stored = persist-IsStored env id messages result db stored b;
                            sessions = refl;
                            evaluations = refl;
                            annotations = refl;
                            same_messages = refl;
                          }))
              ]
      ]
    ]

-- How an attempt ends that finds the session and no evaluation.
pub data Ending (env : WorkerEnv) (id : ℕ) (reply : Option String) (db : Db)
    : Result (Unit {0}) × Db → Type 0 where
  rolled_back :
      {e : Error} → Ending env id reply db (err e, update_session_status_only id evaluating db)
  empty :
      get_messages_by_session id db ≡ []
      → Ending env id reply db (ok tt, update_session_status_only id evaluation_failed db)
  committed :
      {d : Db}
      → IsReviewed env id reply
          (get_messages_by_session id db)
          (update_session_status_only id evaluating db)
          d
      → Ending env id reply db (ok tt, d)

messages-Ending :
    (env : WorkerEnv) (id : ℕ) (s : InterviewSession) (ms : List Message) (reply : Option String)
    (db : Db)
    → get_messages_by_session id db ≡ ms
    → Ending env id reply db (evaluate_messages env id s ms reply db)
unfolding evaluate_messages
messages-Ending env id s [] reply db e = empty e
messages-Ending env id s (m ∷ ms) reply db e =
    elim (Result-cases
      (review env id s (m ∷ ms) reply (update_session_status_only id evaluating db))) [
        | inl (x, failed) ↦ rw (failed, settle) rolled_back
        | inr (v, done) ↦
            rw (done, settle)
              (committed (
                subst
                  (λ l. IsReviewed env id reply l (update_session_status_only id evaluating db) v.1)
                  (sym e) (review-IsReviewed env id s (m ∷ ms) reply _ v done)))
      ]

-- An attempt that finds the session and no evaluation either marks the session and is rolled back,
-- or finds no message and marks that, or commits the whole review.
pub evaluate_session-Ending :
    (env : WorkerEnv) (id : ℕ) (s : InterviewSession) (reply : Option String) (db : Db)
    → find_session id db.sessions ≡ some s
    → get_evaluation_by_session id db ≡ none
    → Ending env id reply db (evaluate_session env id reply db)
unfolding evaluate_session evaluate_unless evaluate_found
evaluate_session-Ending env id s reply db found fresh =
    subst (λ o. Ending env id reply db (evaluate_unless env id o reply db)) (sym fresh)
      (subst (λ o. Ending env id reply db (evaluate_found env id o reply db)) (sym found)
        (messages-Ending env id s (get_messages_by_session id db) reply db refl))

pub find_session-status :
    (id : ℕ) (s : InterviewSession) (status : Status) (db : Db)
    → find_session id db.sessions ≡ some s
    → find_session id (update_session_status_only id status db).sessions
      ≡ some (record s { status = status })
unfolding update_session_status_only
find_session-status id s status db found =
    find_session-update_where (λ t. t.id == id) (λ t. record t { status = status }) (λ t. refl) id
      db
    ∙ ap (changed (λ t. t.id == id) (λ t. record t { status = status })) found
    ∙ rw own refl
  where
    own : (s.id == id) ≡ true
    own = ground (arith, find_session-id id db.sessions s found)

-- The job has come to an end: the evaluation is there, or known to have failed.
pub record IsSettled (id : ℕ) (db : Db) : Type 0 where
  pub row : InterviewSession
  pub found : find_session id db.sessions ≡ some row
  pub ended : (row.status ≡ reviewed) ⊎ (row.status ≡ evaluation_failed)

failed-IsSettled :
    (id : ℕ) (s : InterviewSession) (db : Db)
    → find_session id db.sessions ≡ some s
    → IsSettled id (update_session_status_only id evaluation_failed db)
failed-IsSettled id s db found = record {
  row = record s { status = evaluation_failed };
  found = find_session-status id s evaluation_failed db found;
  ended = inr refl;
}

reviewed-IsSettled :
    (env : WorkerEnv) (id : ℕ) (s : InterviewSession) (reply : Option String) (ms : List Message)
    (db d : Db)
    → find_session id db.sessions ≡ some s
    → IsReviewed env id reply ms db d
    → IsSettled id d
reviewed-IsSettled env id s reply ms db d found r = record {
  row = record s { status = reviewed };
  found =
      ap (find_session id) r.sessions
      ∙ find_session-status id s reviewed r.stored
          (ap (find_session id) r.is_stored.sessions ∙ found);
  ended = inl refl;
}

after-IsSettled :
    (env : WorkerEnv) (id : ℕ) (s : InterviewSession) (reply : Option String) (again : Db → Db)
    (db : Db) (r : Result (Unit {0}) × Db)
    → find_session id db.sessions ≡ some s
    → IsSettled id (again (update_session_status_only id evaluating db))
    → Ending env id reply db r
    → IsSettled id (after_attempt env again r)
unfolding after_attempt
after-IsSettled env id s reply again db r found later rolled_back = later
after-IsSettled env id s reply again db r found later (empty e) = failed-IsSettled id s db found
after-IsSettled env id s reply again db r found later (committed d) =
    reviewed-IsSettled env id _ reply _ _ _ (find_session-status id s evaluating db found) d

marked-fresh :
    (id : ℕ) (db : Db)
    → get_evaluation_by_session id db ≡ none
    → get_evaluation_by_session id (update_session_status_only id evaluating db) ≡ none
unfolding get_evaluation_by_session update_session_status_only
marked-fresh id db fresh = fresh

-- However the language model replies to the attempts of a job, and however many there are, the
-- job leaves its session `reviewed` or `evaluation_failed`, never waiting: if the session is there
-- and has no evaluation yet.
pub attempts-IsSettled :
    (env : WorkerEnv) (id : ℕ) (s : InterviewSession) (replies : List (Option String)) (db : Db)
    → find_session id db.sessions ≡ some s
    → get_evaluation_by_session id db ≡ none
    → IsSettled id (attempts env id replies db)
unfolding attempts give_up
attempts-IsSettled env id s [] db found fresh = failed-IsSettled id s db found
attempts-IsSettled env id s (reply ∷ replies) db found fresh =
    after-IsSettled env id s reply (attempts env id replies) db (evaluate_session env id reply db)
      found
      (attempts-IsSettled env id (record s { status = evaluating }) replies
        (update_session_status_only id evaluating db) (find_session-status id s evaluating db found)
        (marked-fresh id db fresh))
      (evaluate_session-Ending env id s reply db found fresh)
