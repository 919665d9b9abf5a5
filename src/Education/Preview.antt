-- ===== src/Education/Preview.antt =====
-- internal/backend/educator.go: who reads a model answer, and how much of it.
use mathlib.Core.Path.{subst}
use sabermatic_dev.Prelude.{
  ℕ, zero, suc, ◌≡◌, ◌≢◌, refl, sym, ◌∙◌, ◌⊎◌, inl, inr, true, false, Option, none, some, String,
  ◌==◌, arith, Bool-cases, Option-cases,
}
use sabermatic_dev.Billing.{
  EducatorAccessLevel, preview, free_taste, full, Entitlements, educator_access_level,
}
use sabermatic_dev.Store.Rows.{
  Db, InterviewSession, Status, reviewed, EducatorAnalysis, AnalysisStatus, analysis_generating,
  analysis_completed, analysis_failed,
}
use sabermatic_dev.Store.Sessions.{find_session}
use sabermatic_dev.Store.Educators.{get_educator_analysis_by_session}
use sabermatic_dev.Webhook.Atoi.{codes}
use sabermatic_dev.Turn.Speech.{take}
use sabermatic_dev.Session.{get_session, get_session_for_user}
use sabermatic_dev.Session.Create.{check}
use sabermatic_dev.Session.Errors.{ok, ok_inj, Result-cases}
use sabermatic_dev.Education.{
  EducatorResponse, not_requested, still_generating, has_failed, has_completed, is_reviewed,
  is_preview, truncate_runes, text_of, show_completed, show_status, show_analysis,
  get_educator_analysis,
}

truncate_runes-take : (n : ℕ) (s : String) → codes (truncate_runes n s) ≡ take n (codes s)
unfolding truncate_runes codes take
truncate_runes-take zero s = refl
truncate_runes-take (suc n) String.[] = refl
truncate_runes-take (suc n) (String.◌∷◌ c s) = rw (truncate_runes-take n s) refl

-- What a user with this access level is answered, for what the table has.
pub data Shows (level : EducatorAccessLevel)
    : Option EducatorAnalysis → EducatorResponse → Type 0 where
  shows_none : Shows level none not_requested
  shows_generating :
      {ea : EducatorAnalysis}
      → ea.status ≡ analysis_generating
      → Shows level (some ea) (still_generating ea.id)
  shows_failed :
      {ea : EducatorAnalysis}
      → ea.status ≡ analysis_failed
      → Shows level (some ea) (has_failed ea.id)
  shows_whole :
      {ea : EducatorAnalysis}
      → ea.status ≡ analysis_completed
      → level ≢ preview
      → Shows level
          (some ea)
          (has_completed ea.id (text_of ea.model_answer) (text_of ea.gap_deep_dives))
  shows_preview :
      {ea : EducatorAnalysis} {answer : String}
      → ea.status ≡ analysis_completed
      → level ≡ preview
      → codes answer ≡ take 200 (codes (text_of ea.model_answer))
      → Shows level (some ea) (has_completed ea.id answer "")

preview-cases :
    (l : EducatorAccessLevel)
    → ((l ≡ preview) × (is_preview l ≡ true)) ⊎ ((l ≢ preview) × (is_preview l ≡ false))
unfolding is_preview
preview-cases preview = inl (refl, refl)
preview-cases free_taste = inr ((λ e. absurd (ground (arith, e))), refl)
preview-cases full = inr ((λ e. absurd (ground (arith, e))), refl)

completed-Shows :
    (level : EducatorAccessLevel) (ea : EducatorAnalysis)
    → ea.status ≡ analysis_completed
    → Shows level (some ea) (show_completed (is_preview level) ea)
unfolding show_completed
completed-Shows level ea done = elim (preview-cases level) [
  | inl (short, test) ↦
      rw test (shows_preview done short (truncate_runes-take 200 (text_of ea.model_answer)))
  | inr (long, test) ↦ rw test (shows_whole done long)
]

status-Shows :
    (level : EducatorAccessLevel) (ea : EducatorAnalysis) (status : AnalysisStatus)
    → ea.status ≡ status
    → Shows level (some ea) (show_status (is_preview level) ea status)
unfolding show_status
status-Shows level ea analysis_generating e = shows_generating e
status-Shows level ea analysis_failed e = shows_failed e
status-Shows level ea analysis_completed e = completed-Shows level ea e

pub show_analysis-Shows :
    (level : EducatorAccessLevel) (o : Option EducatorAnalysis)
    → Shows level o (show_analysis (is_preview level) o)
unfolding show_analysis
show_analysis-Shows level none = shows_none
show_analysis-Shows level (some ea) = status-Shows level ea ea.status refl

reviewed_only : (s : Status) → is_reviewed s ≡ true → s ≡ reviewed
unfolding is_reviewed
reviewed_only s h = ground arith

-- A read that is answered: the session is the reader's and reviewed, and the answer is the one for
-- the reader's access level.
pub record IsReader (id user : ℕ) (db : Db) (r : EducatorResponse) : Type 0 where
  pub session : InterviewSession
  pub entitlements : Entitlements
  pub found : find_session id db.sessions ≡ some session
  pub own : session.user ≡ user
  pub in_review : session.status ≡ reviewed
  pub checked : check user db ≡ ok entitlements
  pub shows : Shows (educator_access_level entitlements) (get_educator_analysis_by_session id db) r

-- GetEducatorAnalysis answers only the user of the session, once the session is reviewed: whether
-- there is an analysis, whether it is generated or has failed, and of a completed one the whole
-- text if the user's access is not a preview, and if it is, exactly the first 200 code points of
-- the model answer and none of the deep dives.
pub get_educator_analysis-IsReader :
    (id user : ℕ) (db : Db) (r : EducatorResponse)
    → get_educator_analysis id user db ≡ ok r
    → IsReader id user db r
unfolding get_educator_analysis get_session_for_user get_session
get_educator_analysis-IsReader id user db r = elim (Option-cases (find_session id db.sessions)) [
  | inl missing ↦ rw missing (λ h. absurd (ground arith))
  | inr (s, found) ↦ elim (Bool-cases (s.user == user)) [
    | inr stranger ↦ rw (found, stranger) (λ h. absurd (ground arith))
    | inl owner ↦ elim (Bool-cases (is_reviewed s.status)) [
      | inr early ↦ rw (found, owner, early) (λ h. absurd (ground arith))
      | inl late ↦ elim (Result-cases (check user db)) [
        | inl (e, failed) ↦ rw (found, owner, late, failed) (λ h. absurd (ground arith))
        | inr (entitlements, checked) ↦
            let shows =
              show_analysis-Shows (educator_access_level entitlements)
                (get_educator_analysis_by_session id db) in
            let answered : get_educator_analysis id user db
                ≡ ok (
                    show_analysis (is_preview (educator_access_level entitlements))
                      (get_educator_analysis_by_session id db)) =
              rw (found, owner, late, checked) refl in
            λ h. record {
              session = s;
              entitlements = entitlements;
              found = found;
              own = ground (arith, owner);
              in_review = reviewed_only s.status late;
              checked = checked;
              shows =
                  subst
                    (Shows (educator_access_level entitlements)
                      (get_educator_analysis_by_session id db))
                    (ok_inj (sym answered ∙ h)) shows;
            }
      ]
    ]
  ]
]
