-- ===== src/Store/Coaches.antt =====
-- internal/db/coach_analyses.sql.go, the reviewed sessions of sessions.sql.go, and InsertQuestion of
-- questions.sql.go. Of a question the row has its id only, as in the rest of the tables.
use sabermatic_dev.Prelude.{
  ℕ, suc, Bool, true, false, ◌&&◌, ◌||◌, List, [], ◌∷◌, ◌++◌, map, Option, none, some, String,
  str_eq, ltb, leb, ◌==◌, if◌then◌else◌, select,
}
use sabermatic_dev.Store.Rows.{Db, InterviewSession, Status, reviewed, CoachAnalysis}
use sabermatic_dev.Store.Grants.Create.{has_user}

unfoldable pub has_status_reviewed : Status → Bool
has_status_reviewed reviewed = true
has_status_reviewed _ = false

unfoldable pub is_null : Option ℕ → Bool
is_null none = true
is_null (some t) = false

-- `user_id = $1 AND status = 'reviewed' AND archived_at IS NULL`
unfoldable pub is_reviewed_of : ℕ → InterviewSession → Bool
unfolding has_status_reviewed is_null
is_reviewed_of user s = s.user == user && has_status_reviewed s.status && is_null s.archived_at

unfoldable pub insert_by_created : InterviewSession → List InterviewSession → List InterviewSession
insert_by_created s [] = s ∷ []
insert_by_created s (h ∷ hs) =
    if leb s.created_at h.created_at then s ∷ h ∷ hs else h ∷ insert_by_created s hs

unfoldable pub sort_by_created : List InterviewSession → List InterviewSession
unfolding insert_by_created
sort_by_created [] = []
sort_by_created (s ∷ ss) = insert_by_created s (sort_by_created ss)

unfoldable pub get_reviewed_sessions_for_user : ℕ → Db → List InterviewSession
unfolding sort_by_created is_reviewed_of
get_reviewed_sessions_for_user user db = sort_by_created (select (is_reviewed_of user) db.sessions)

unfoldable pub get_reviewed_session_ids_for_user : ℕ → Db → List ℕ
unfolding sort_by_created is_reviewed_of
get_reviewed_session_ids_for_user user db =
    map (λ (s : InterviewSession). s.id)
      (sort_by_created (select (is_reviewed_of user) db.sessions))

-- ORDER BY created_at DESC LIMIT 1, over the rows of the user.
unfoldable pub later_analysis : Bool → CoachAnalysis → Option CoachAnalysis → Option CoachAnalysis
later_analysis false a best = best
later_analysis true a none = some a
later_analysis true a (some b) = if ltb a.created_at b.created_at then some b else some a

unfoldable pub latest_of : ℕ → List CoachAnalysis → Option CoachAnalysis
unfolding later_analysis
latest_of user [] = none
latest_of user (a ∷ rest) = later_analysis (a.user == user) a (latest_of user rest)

unfoldable pub get_latest_coach_analysis : ℕ → Db → Option CoachAnalysis
unfolding latest_of
get_latest_coach_analysis user db = latest_of user db.coach_analyses

-- The foreign key of user_id; id and created_at are the columns' defaults.
unfoldable pub insert_coach_analysis : CoachAnalysis → Db → Option (Db × ℕ)
unfolding has_user
insert_coach_analysis row db =
    if has_user row.user db.users
    then some (
      record db {
        coach_analyses =
            db.coach_analyses ++ (record row { id = db.next_id; created_at = db.now }) ∷ [];
        next_id = suc db.next_id;
      },
      db.next_id,
    )
    else none

-- The CHECK on difficulty, the foreign key of user_id, and whether the text of the rationale is one.
unfoldable pub insert_question : ℕ → String → Bool → Db → Option (Db × ℕ)
unfolding has_user
insert_question user difficulty is_text db =
    if has_user user db.users
      && ((str_eq difficulty "medium" || str_eq difficulty "hard") && is_text)
    then some (
      record db { questions = db.questions ++ db.next_id ∷ []; next_id = suc db.next_id },
      db.next_id,
    )
    else none
