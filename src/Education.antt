-- ===== src/Education.antt =====
-- internal/backend/educator.go: a model answer for a reviewed session.
pub mod Worker
pub mod Preview
pub mod Entitled
pub mod Taste
use sabermatic_dev.Prelude.{
  ℕ, zero, suc, Bool, true, false, Option, none, some, String, List, if◌then◌else◌,
}
use sabermatic_dev.Billing.{
  EducatorAccessLevel, preview, free_taste, Entitlements, educator_access_level,
}
use sabermatic_dev.Store.Rows.{
  Db, Status, reviewed, EducatorAnalysis, AnalysisStatus, analysis_generating, analysis_completed,
  analysis_failed, Job, educator_analysis,
}
use sabermatic_dev.Store.Educators.{
  get_educator_analysis_by_session, update_educator_analysis_status, increment_free_educator_used,
}
use sabermatic_dev.Session.{get_session_for_user}
use sabermatic_dev.Session.Create.{check}
use sabermatic_dev.Session.Errors.{
  Result, ok, err, ◌>>=◌, ◌>>◌, ensure, found_or, evaluation_not_ready, no_paid_balance,
  already_exists, internal,
}

unfoldable pub is_reviewed : Status → Bool
is_reviewed reviewed = true
is_reviewed _ = false

-- `string([]rune(s)[:min(n, len)])`
unfoldable pub truncate_runes : ℕ → String → String
truncate_runes zero s = ""
truncate_runes (suc n) String.[] = ""
truncate_runes (suc n) (String.◌∷◌ c s) = String.◌∷◌ c (truncate_runes n s)

abbrev pub preview_model_answer_len : ℕ
preview_model_answer_len = 200

-- pgtype.Text.String: "" for NULL.
unfoldable pub text_of : Option String → String
text_of none = ""
text_of (some s) = s

pub data EducatorResponse : Type 0 where
  not_requested : EducatorResponse
  still_generating has_failed : ℕ → EducatorResponse
  has_completed : ℕ → String → String → EducatorResponse

unfoldable pub is_preview : EducatorAccessLevel → Bool
is_preview preview = true
is_preview _ = false

unfoldable pub show_completed : Bool → EducatorAnalysis → EducatorResponse
unfolding truncate_runes text_of
show_completed true ea =
    has_completed ea.id (truncate_runes preview_model_answer_len (text_of ea.model_answer)) ""
show_completed false ea = has_completed ea.id (text_of ea.model_answer) (text_of ea.gap_deep_dives)

unfoldable pub show_status : Bool → EducatorAnalysis → AnalysisStatus → EducatorResponse
unfolding show_completed
show_status short ea analysis_generating = still_generating ea.id
show_status short ea analysis_failed = has_failed ea.id
show_status short ea analysis_completed = show_completed short ea

unfoldable pub show_analysis : Bool → Option EducatorAnalysis → EducatorResponse
unfolding show_status
show_analysis short none = not_requested
show_analysis short (some ea) = show_status short ea ea.status

unfoldable pub get_educator_analysis : ℕ → ℕ → Db → Result EducatorResponse
unfolding is_reviewed is_preview show_analysis
get_educator_analysis id user db = do
  session ← get_session_for_user id user db
  ensure (is_reviewed session.status) evaluation_not_ready
  entitlements ← check user db
  ok (
      show_analysis (is_preview (educator_access_level entitlements))
        (get_educator_analysis_by_session id db))

-- Everything before the free taste is consumed.
unfoldable pub admit : ℕ → ℕ → Db → Result Entitlements
unfolding is_reviewed is_preview
admit id user db = do
  session ← get_session_for_user id user db
  ensure (is_reviewed session.status) evaluation_not_ready
  entitlements ← check user db
  ensure (if is_preview (educator_access_level entitlements) then false else true) no_paid_balance
  ok entitlements

-- This UPDATE is outside any transaction: it stays whatever comes after it.
unfoldable pub consume : EducatorAccessLevel → ℕ → ℕ → Db → Result Db
consume free_taste limit user db = found_or (increment_free_educator_used user limit db) internal
consume _ limit user db = ok db

module _ (insert_job : Job → List Job → List Job) where
  unfoldable pub enqueue_educator : ℕ → Db → Db
  enqueue_educator id db = record db { jobs = insert_job (educator_analysis id) db.jobs }

  unfoldable pub request_status :
      ℕ → EducatorAnalysis → AnalysisStatus → Db → Result (Unit {0}) × Db
  unfolding enqueue_educator
  request_status id ea analysis_completed db = (err already_exists, db)
  request_status id ea analysis_generating db = (ok tt, db)
  request_status id ea analysis_failed db =
      (ok tt, enqueue_educator id (update_educator_analysis_status ea.id analysis_generating db))

  unfoldable pub request_existing : ℕ → Option EducatorAnalysis → Db → Result (Unit {0}) × Db
  unfolding request_status enqueue_educator
  request_existing id (some ea) db = request_status id ea ea.status db
  request_existing id none db = (ok tt, enqueue_educator id db)

  unfoldable pub request_consumed : ℕ → Result Db → Db → Result (Unit {0}) × Db
  unfolding request_existing
  request_consumed id (err e) db = (err e, db)
  request_consumed id (ok consumed) db =
      request_existing id (get_educator_analysis_by_session id consumed) consumed

  unfoldable pub request_admitted : ℕ → ℕ → Result Entitlements → Db → Result (Unit {0}) × Db
  unfolding consume request_consumed
  request_admitted id user (err e) db = (err e, db)
  request_admitted id user (ok entitlements) db =
      request_consumed id
        (consume (educator_access_level entitlements) entitlements.plan.free_educator_limit user db)
        db

  unfoldable pub request_educator_analysis : ℕ → ℕ → Db → Result (Unit {0}) × Db
  unfolding admit request_admitted
  request_educator_analysis id user db = request_admitted id user (admit id user db) db
