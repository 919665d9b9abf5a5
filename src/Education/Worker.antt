-- ===== src/Education/Worker.antt =====
-- internal/jobs/educator.go and error_handler.go: the job that writes the model answer.
-- As for evaluations, an attempt gets the language model's reply, `none` if the call fails.
use sabermatic_dev.Prelude.{Bool, true, false, ℕ, Option, none, some, String, if◌then◌else◌}
use sabermatic_dev.Store.Rows.{
  Db, InterviewSession, EducatorAnalysis, AnalysisStatus, analysis_generating, analysis_failed,
}
use sabermatic_dev.Store.Sessions.{find_session}
use sabermatic_dev.Store.Evaluations.{get_evaluation_by_session}
use sabermatic_dev.Store.Educators.{
  get_educator_analysis_by_session, insert_educator_analysis, update_educator_analysis_content,
  update_educator_analysis_status,
}
use sabermatic_dev.Session.Errors.{Result, ok, err, settle, found_or, ◌>>=◌, internal}
use sabermatic_dev.Evaluation.Educator.{EducatorResult, EducatorParsed, education, parse_education}
use sabermatic_dev.Education.{is_reviewed}

unfoldable pub is_generating : AnalysisStatus → Bool
is_generating analysis_generating = true
is_generating _ = false

-- A row that is completed or has failed is left as it is.
unfoldable pub may_proceed : Option EducatorAnalysis → Bool
unfolding is_generating
may_proceed none = true
may_proceed (some ea) = is_generating ea.status

-- The row of an attempt before, or a new one.
unfoldable pub row_for : ℕ → Option EducatorAnalysis → Db → Result (ℕ × Db)
row_for session (some ea) db = ok (ea.id, db)
row_for session none db = do
  inserted ← found_or (insert_educator_analysis session db) internal
  ok (inserted.1, inserted.0)

unfoldable pub of_education : EducatorParsed → Result EducatorResult
of_education (education result) = ok result
of_education _ = err internal

module _ (unmarshal : String → Option EducatorResult) where
  -- The transaction.
  unfoldable pub write_content : ℕ → Option String → Db → Result (Unit {0} × Db)
  unfolding of_education
  write_content id reply db = do
    raw ← found_or reply internal
    result ← of_education (parse_education unmarshal raw)
    ok (tt, update_educator_analysis_content id result.model_answer result.gap_deep_dives db)

  unfoldable pub generate_row : Result (ℕ × Db) → Option String → Db → Result (Unit {0}) × Db
  unfolding settle write_content
  generate_row (err e) reply db = (err e, db)
  generate_row (ok (id, stored)) reply db = settle (write_content id reply stored) stored

  unfoldable pub generate_evaluated :
      ℕ → Option EducatorAnalysis → Bool → Option String → Db → Result (Unit {0}) × Db
  unfolding generate_row row_for
  generate_evaluated session ea false reply db = (err internal, db)
  generate_evaluated session ea true reply db = generate_row (row_for session ea db) reply db

  unfoldable pub generate_found :
      ℕ
      → Option EducatorAnalysis
      → Option InterviewSession
      → Option String
      → Db
      → Result (Unit {0}) × Db
  unfolding generate_evaluated is_reviewed
  generate_found session ea none reply db = (err internal, db)
  generate_found session ea (some s) reply db =
      if is_reviewed s.status
      then generate_evaluated session ea
          (elim (get_evaluation_by_session session db) [ none ↦ false | some e ↦ true ]) reply db
      else (ok tt, db)

  -- GenerateEducatorContentWorker.Work
  unfoldable pub generate_educator_content : ℕ → Option String → Db → Result (Unit {0}) × Db
  unfolding generate_found may_proceed
  generate_educator_content session reply db =
      let ea = get_educator_analysis_by_session session db in
      if may_proceed ea
      then generate_found session ea (find_session session db.sessions) reply db
      else (ok tt, db)

-- HandleError, after the last attempt.
unfoldable pub give_up_educator : ℕ → Db → Db
give_up_educator session db = elim (get_educator_analysis_by_session session db) [
  | none ↦ db
  | some ea ↦ update_educator_analysis_status ea.id analysis_failed db
]
