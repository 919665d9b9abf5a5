-- ===== src/Coach.antt =====
-- internal/backend/coach.go and internal/jobs/coach.go: the analysis over all reviewed sessions.
-- Parameters: the JSON decoder, the bytes of a text and whether Postgres takes bytes as UTF-8, and
-- River's insert. An attempt of the job gets the language model's reply, `none` if the call fails.
pub mod Stored
pub mod Fresh
use sabermatic_dev.Prelude.{
  ℕ, Bool, true, false, not, ◌&&◌, ◌||◌, List, [], ◌∷◌, ◌++◌, map, Option, none, some, String,
  str_eq, ltb, ◌==◌, if◌then◌else◌, length,
}
use sabermatic_dev.Billing.{can_access_coach}
use sabermatic_dev.Store.Rows.{
  Db, InterviewSession, CoachAnalysis, Job, run_coach_analysis, generate_question_image,
}
use sabermatic_dev.Store.Coaches
use sabermatic_dev.Store.Coaches.{
  get_reviewed_sessions_for_user, get_reviewed_session_ids_for_user, insert_coach_analysis,
  insert_question,
}
use sabermatic_dev.Webhook.Atoi.{codes}
use sabermatic_dev.Turn.Speech.{take}
use sabermatic_dev.Session.Create.{check}
use sabermatic_dev.Session.Errors.{
  Result, ok, err, settle, ◌>>=◌, ◌>>◌, ensure, found_or, no_paid_balance, no_new_sessions,
  internal,
}
use sabermatic_dev.Evaluation.Parse.{or_empty}
use sabermatic_dev.Evaluation.Coach.{
  RawCoachInput, GeneratedQuestion, CoachResult, CoachParsed, analysis, refused, parse_analysis,
}

pub record CoachResponse : Type 0 where
  pub id : ℕ
  pub user : ℕ
  pub summary : String
  pub narrative : String
  pub weakest_dimension : String
  pub improving_dimensions : List String
  pub topic_gaps : List String
  pub suggested_question : Option ℕ
  pub sessions_analyzed : List ℕ
  pub created_at : ℕ

-- pgtype.Text.String: "" for NULL.
unfoldable pub text_or_empty : Option String → String
text_or_empty none = ""
text_or_empty (some s) = s

unfoldable pub to_coach_response : CoachAnalysis → CoachResponse
unfolding text_or_empty
to_coach_response ca = record {
  id = ca.id;
  user = ca.user;
  summary = text_or_empty ca.summary;
  narrative = ca.narrative;
  weakest_dimension = text_or_empty ca.weakest_dimension;
  improving_dimensions = or_empty ca.improving_dimensions;
  topic_gaps = or_empty ca.topic_gaps;
  suggested_question = ca.suggested_question;
  sessions_analyzed = ca.sessions_analyzed;
  created_at = ca.created_at;
}

unfoldable pub respond_latest : Option CoachAnalysis → Option CoachResponse
unfolding to_coach_response
respond_latest none = none
respond_latest (some ca) = some (to_coach_response ca)

unfoldable pub get_latest_coach_analysis : ℕ → Db → Result (Option CoachResponse)
unfolding respond_latest
get_latest_coach_analysis user db = do
  entitlements ← check user db
  ensure (can_access_coach entitlements) no_paid_balance
  ok (respond_latest (Coaches.get_latest_coach_analysis user db))

unfoldable pub uuid_slices_equal : List ℕ → List ℕ → Bool
uuid_slices_equal [] [] = true
uuid_slices_equal (a ∷ rest) (b ∷ bs) = a == b && uuid_slices_equal rest bs
uuid_slices_equal [] (b ∷ bs) = false
uuid_slices_equal (a ∷ rest) [] = false

-- Has the latest analysis seen these sessions?
unfoldable pub is_seen : List ℕ → Option CoachAnalysis → Bool
unfolding uuid_slices_equal
is_seen ids none = false
is_seen ids (some ca) = uuid_slices_equal ids ca.sessions_analyzed

module _ (insert_job : Job → List Job → List Job) where
  unfoldable pub request_coach_analysis : ℕ → Bool → Db → Result (Unit {0}) × Db
  unfolding settle is_seen
  request_coach_analysis user force db =
      settle
        (do
          entitlements ← check user db
          ensure (can_access_coach entitlements) no_paid_balance
          ensure
              (force
                || not (
                    is_seen (get_reviewed_session_ids_for_user user db)
                      (Coaches.get_latest_coach_analysis user db)))
              no_new_sessions
          ok (tt, record db { jobs = insert_job (run_coach_analysis user) db.jobs }))
        db

-- What the worker calls.
pub record CoachEnv : Type 0 where
  pub unmarshal : String → Option RawCoachInput
  pub bytes : String → List ℕ
  pub is_utf8 : List ℕ → Bool
  pub insert_job : Job → List Job → List Job

unfoldable pub of_analysis : CoachParsed → Result CoachResult
of_analysis (refused p) = err internal
of_analysis (analysis result) = ok result

-- `pgtype.Text{String: s, Valid: s != ""}`
unfoldable pub null_if_empty : String → Option String
null_if_empty s = if str_eq s "" then none else some s

-- The bytes of the rationale: at most 500 of the narrative, cut wherever that falls.
unfoldable pub rationale : List ℕ → List ℕ
rationale narrative =
    if ltb 500 (length narrative) then take 500 narrative ++ codes "..." else narrative

module _ (env : CoachEnv) where
  unfoldable pub suggest : ℕ → CoachResult → Option GeneratedQuestion → Db → Result (Db × Option ℕ)
  unfolding rationale
  suggest user result none db = ok (db, none)
  suggest user result (some gq) db = do
    inserted ←
        found_or
          (insert_question user gq.difficulty (env.is_utf8 (rationale (env.bytes result.narrative)))
            db)
          internal
    ok (
      record (inserted.0) {
        jobs = env.insert_job (generate_question_image inserted.1) inserted.0.jobs;
      },
      some inserted.1,
    )

  unfoldable pub coach_row : ℕ → CoachResult → Option ℕ → List ℕ → Db → CoachAnalysis
  unfolding null_if_empty
  coach_row user result question ids db = record {
    id = db.next_id;
    user = user;
    narrative = result.narrative;
    weakest_dimension = null_if_empty result.weakest_dimension;
    improving_dimensions = some result.improving_dimensions;
    topic_gaps = some result.topic_gaps;
    suggested_question = question;
    sessions_analyzed = ids;
    created_at = db.now;
    summary = null_if_empty result.summary;
  }

  -- The transaction.
  unfoldable pub analyse : ℕ → List ℕ → Option String → Db → Result (Unit {0} × Db)
  unfolding of_analysis suggest coach_row
  analyse user ids reply db = do
    raw ← found_or reply internal
    result ← of_analysis (parse_analysis env.unmarshal raw)
    asked ← suggest user result result.generated_question db
    stored ←
        found_or (insert_coach_analysis (coach_row user result asked.1 ids asked.0) asked.0)
          internal
    ok (tt, stored.0)

  unfoldable pub analyse_sessions :
      ℕ → List InterviewSession → Option String → Db → Result (Unit {0}) × Db
  unfolding settle analyse
  analyse_sessions user [] reply db = (ok tt, db)
  analyse_sessions user (s ∷ ss) reply db =
      settle (analyse user (map (λ (x : InterviewSession). x.id) (s ∷ ss)) reply db) db

  -- RunCoachAnalysisWorker.Work
  unfoldable pub run_coach_job : ℕ → Option String → Db → Result (Unit {0}) × Db
  unfolding analyse_sessions
  run_coach_job user reply db =
      analyse_sessions user (get_reviewed_sessions_for_user user db) reply db
