-- ===== src/Evaluation/Fetch.antt =====
-- internal/backend/evaluation.go: GetEvaluation. Parameters: reading a JSON list of texts, and the
-- order of the database's collation.
use sabermatic_dev.Prelude.{
  ℕ, ◌≡◌, ◌⊎◌, inl, inr, refl, ◌==◌, arith, List, map, Option, some, String, Bool, Bool-cases,
  Option-cases,
}
use sabermatic_dev.Prelude.Int.{ℤ, pos}
use sabermatic_dev.Store.Rows.{
  Db, InterviewSession, EvaluationRow, Status, evaluation_failed, reviewed,
}
use sabermatic_dev.Store.Sessions.{find_session}
use sabermatic_dev.Store.Evaluations.{get_evaluation_by_session, get_annotations_by_evaluation}
use sabermatic_dev.Session.Errors.{Result, ok, err, found_or, ◌>>=◌, internal, evaluation_not_ready}
use sabermatic_dev.Session.{get_session, get_session_for_user}
use sabermatic_dev.Evaluation.Parse.{EvaluationResult, Annotation}

pub data EvaluationResponse : Type 0 where
  failed_response : EvaluationResponse
  reviewed_response : EvaluationResult → EvaluationResponse

-- A sequence number is an int32 of the database.
unfoldable pub to_response : Annotation ℕ → Annotation ℤ
to_response a = record { message_seq = pos a.message_seq; kind = a.kind; content = a.content }

module _ (unmarshal : String → Option (List String)) (text_leb : String → String → Bool) where
  unfoldable pub read_evaluation : EvaluationRow → Db → Result EvaluationResponse
  unfolding to_response
  read_evaluation row db = do
    strengths ← found_or (unmarshal row.strengths) internal
    gaps ← found_or (unmarshal row.gaps) internal
    ok (
        reviewed_response (record {
          scores = row.scores;
          strengths = strengths;
          gaps = gaps;
          advice = row.advice;
          annotations = map to_response (get_annotations_by_evaluation text_leb row.id db);
        }))

  unfoldable pub respond : ℕ → Status → Db → Result EvaluationResponse
  unfolding read_evaluation
  respond id evaluation_failed db = ok failed_response
  respond id reviewed db = do
    row ← found_or (get_evaluation_by_session id db) evaluation_not_ready
    read_evaluation row db
  respond id _ db = err evaluation_not_ready

  unfoldable pub get_evaluation : ℕ → ℕ → Db → Result EvaluationResponse
  unfolding respond
  get_evaluation id user db = do
    session ← get_session_for_user id user db
    respond id session.status db

  responded :
      (id : ℕ) (status : Status) (db : Db) (v : EvaluationResponse)
      → respond id status db ≡ ok v
      → (status ≡ reviewed) ⊎ (status ≡ evaluation_failed)
  unfolding respond
  responded id status db v h = ground arith

  -- An evaluation is shown only to the user whose session it is, and only when the session is
  -- reviewed or its evaluation has failed.
  pub get_evaluation_private :
      (id user : ℕ) (db : Db) (v : EvaluationResponse)
      → get_evaluation id user db ≡ ok v
      → (s : InterviewSession) × (find_session id db.sessions ≡ some s)
        × (s.user ≡ user)
        × ((s.status ≡ reviewed) ⊎ (s.status ≡ evaluation_failed))
  unfolding get_evaluation get_session_for_user get_session
  get_evaluation_private id user db v = elim (Option-cases (find_session id db.sessions)) [
    | inl missing ↦ rw missing (λ h. absurd (ground arith))
    | inr (s, found) ↦ elim (Bool-cases (s.user == user)) [
      | inr stranger ↦ rw (found, stranger) (λ h. absurd (ground arith))
      | inl owner ↦ rw (found, owner) (λ h. (s, refl, ground arith, responded id s.status db v h))
    ]
  ]
