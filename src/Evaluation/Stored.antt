-- ===== src/Evaluation/Stored.antt =====
-- internal/jobs/evaluate.go: what the transaction of a successful evaluation has written.
use mathlib.Core.Path.{subst}
use sabermatic_dev.Prelude.{
  some_inj, ℕ, suc, ◌≡◌, refl, sym, ap, ◌∙◌, inl, inr, false, not, ◌&&◌, List, [], ◌∷◌, ◌++◌,
  Option, none, some, String, arith, Bool-cases, Option-cases,
}
use sabermatic_dev.Prelude.Int.{ℤ}
use sabermatic_dev.Store.Rows.{Db, Message, EvaluationRow}
use sabermatic_dev.Store.Evaluations.{
  find_evaluation, get_evaluation_by_session, is_fine, has_evaluation, insert_evaluation,
}
use sabermatic_dev.Evaluation.Parse.{EvaluationResult, Scores, named_scores, check_scores}
use sabermatic_dev.Session.Errors.{ok}
use sabermatic_dev.Evaluation.Worker.{WorkerEnv, insert_annotations, persist}
use sabermatic_dev.Evaluation.Annotated.{annotation_rows, insert_annotations-IsAnnotated}

-- What a successful transaction has stored before it marks the session.
pub record IsStored (env : WorkerEnv) (id : ℕ) (messages : List Message) (result : EvaluationResult)
    (db d : Db) : Type 0 where
  pub strengths : String
  pub gaps : String
  pub marshalled : env.marshal result.strengths ≡ some strengths
  pub marshalled_gaps : env.marshal result.gaps ≡ some gaps
  pub found :
      get_evaluation_by_session id d
      ≡ some (record {
        id = db.next_id;
        session = id;
        scores = result.scores;
        strengths = strengths;
        gaps = gaps;
        advice = result.advice;
        created_at = db.now;
      })
  pub annotations :
      d.annotations
      ≡ db.annotations ++ annotation_rows (suc db.next_id) db.next_id messages result.annotations
  pub sessions : d.sessions ≡ db.sessions
  pub same_messages : d.messages ≡ db.messages
  pub users : d.users ≡ db.users

find_evaluation-append :
    (id : ℕ) (es : List EvaluationRow) (e : EvaluationRow)
    → find_evaluation id es ≡ none
    → e.session ≡ id
    → find_evaluation id (es ++ e ∷ []) ≡ some e
unfolding find_evaluation
find_evaluation-append id [] e h k = ground arith
find_evaluation-append id (x ∷ es) e h k = ground (arith, h, find_evaluation-append id es e)

abbrev new_row : ℕ → Scores ℤ → String → String → String → Db → EvaluationRow
new_row session scores strengths gaps advice db = record {
  id = db.next_id;
  session = session;
  scores = scores;
  strengths = strengths;
  gaps = gaps;
  advice = advice;
  created_at = db.now;
}

insert_evaluation-row :
    (id : ℕ) (scores : Scores ℤ) (strengths gaps advice : String) (db : Db) (r : Db × ℕ)
    → insert_evaluation id scores strengths gaps advice db ≡ some r
    → (r ≡ (
      record db {
        evaluations = db.evaluations ++ new_row id scores strengths gaps advice db ∷ [];
        next_id = suc db.next_id;
      },
      db.next_id,
    ))
      × (get_evaluation_by_session id db ≡ none)
unfolding insert_evaluation
insert_evaluation-row id scores strengths gaps advice db r =
    elim (Bool-cases (
      is_fine (check_scores (named_scores scores))
      && not (has_evaluation (get_evaluation_by_session id db)))) [
        | inr bad ↦ rw bad (λ h. absurd (ground arith))
        | inl good ↦ rw good (λ h.
            (sym (some_inj h), none_there (get_evaluation_by_session id db) (ground (arith, good))))
      ]
  where
    none_there : (o : Option EvaluationRow) → has_evaluation o ≡ false → o ≡ none
    none_there none k = refl
    none_there (some row) k = absurd (unfold has_evaluation in ground arith)

pub persist-IsStored :
    (env : WorkerEnv) (id : ℕ) (messages : List Message) (result : EvaluationResult) (db d : Db)
    → persist env id messages result db ≡ ok d
    → IsStored env id messages result db d
unfolding persist get_evaluation_by_session
persist-IsStored env id messages result db d = elim (Option-cases (env.marshal result.strengths)) [
  | inl x ↦ rw (x, persist) (λ h. absurd (ground arith))
  | inr (strengths, a) ↦ elim (Option-cases (env.marshal result.gaps)) [
    | inl x ↦ rw (a, x, persist) (λ h. absurd (ground arith))
    | inr (gaps, b) ↦
        elim (Option-cases (insert_evaluation id result.scores strengths gaps result.advice db)) [
          | inl x ↦ rw (a, b, x, persist) (λ h. absurd (ground arith))
          | inr (stored, c) ↦
              rw (a, b, c, persist)
                (λ h.
                  let row =
                    insert_evaluation-row id result.scores strengths gaps result.advice db stored
                      c in
                  let i =
                    insert_annotations-IsAnnotated db.next_id messages result.annotations _ d (
                      subst
                        (λ (x : Db × ℕ).
                          insert_annotations x.1 messages result.annotations x.0 ≡ ok d)
                        row.0 h) in
                  record {
                    strengths = strengths;
                    gaps = gaps;
                    marshalled = a;
                    marshalled_gaps = b;
                    found =
                        ap (find_evaluation id) i.evaluations
                        ∙ find_evaluation-append id db.evaluations _ row.1 refl;
                    annotations = i.annotations;
                    sessions = i.sessions;
                    same_messages = i.same_messages;
                    users = i.users;
                  })
        ]
  ]
]
