-- ===== src/Store/Sessions.antt =====
-- internal/db/sessions.sql.go and interview.sql.go: the queries on interview_sessions.
use sabermatic_dev.Prelude.{
  ℕ, suc, ◌+◌, ◌*◌, Bool, true, false, not, ◌&&◌, ◌||◌, Option, none, some, List, [], ◌∷◌, ◌++◌,
  map, ltb, ◌==◌, if◌then◌else◌, select, length,
}
use sabermatic_dev.Store.Rows.{
  Db, InterviewSession, Message, Status, Role, active, generating, completed, cancelled,
  interviewer, candidate,
}

unfoldable pub find_session : ℕ → List InterviewSession → Option InterviewSession
find_session id [] = none
find_session id (s ∷ ss) = if s.id == id then some s else find_session id ss

-- UPDATE … WHERE id = $1 AND …: the rows are changed in place.
unfoldable pub update_where :
    (InterviewSession → Bool) → (InterviewSession → InterviewSession) → Db → Db
update_where hit change db = record db {
  sessions = map (λ (s : InterviewSession). if hit s then change s else s) db.sessions;
}

unfoldable pub is_active : Status → Bool
is_active active = true
is_active _ = false

unfoldable pub is_generating : Status → Bool
is_generating generating = true
is_generating _ = false

-- INSERT … RETURNING: the columns that are not given have their defaults.
unfoldable pub create_session : ℕ → ℕ → ℕ → Bool → Option ℕ → Db → Db × InterviewSession
create_session user question duration tts reserved db =
    let session : InterviewSession = record {
      id = db.next_id;
      user = user;
      question = question;
      status = active;
      config_duration_minutes = duration;
      config_tts_enabled = tts;
      started_at = db.now;
      ended_at = none;
      turn_count = 0;
      reserved_minutes = reserved;
      archived_at = none;
      generating_since = none;
      created_at = db.now;
    } in
    (record db { sessions = db.sessions ++ session ∷ []; next_id = suc db.next_id }, session)

unfoldable pub count_active_sessions_by_user : ℕ → Db → ℕ
unfolding is_active
count_active_sessions_by_user user db =
    length (select (λ (s : InterviewSession). s.user == user && is_active s.status) db.sessions)

-- AcquireGeneratingStatus returns the id of the row, or no row.
unfoldable pub acquire_generating_status : ℕ → Db → Db × Option ℕ
unfolding update_where is_active
acquire_generating_status id db =
    let hit = λ (s : InterviewSession). s.id == id && is_active s.status in
    (
      update_where hit (λ s. record s { status = generating; generating_since = some db.now }) db,
      elim (select hit db.sessions) [ [] ↦ none | s ∷ _ ↦ some s.id ],
    )

unfoldable pub release_generating_status : ℕ → Db → Db
unfolding update_where is_generating
release_generating_status id db =
    update_where (λ s. s.id == id && is_generating s.status)
      (λ s. record s { status = active; generating_since = none }) db

-- INTERVAL '5 minutes'
abbrev pub stale_after : ℕ
stale_after = 300000000

-- `generating_since < NOW() - INTERVAL '5 minutes'`
unfoldable pub is_stale : ℕ → InterviewSession → Bool
is_stale now s = elim s.generating_since [ none ↦ false | some t ↦ ltb (t + stale_after) now ]

unfoldable pub inline_recover_stale_generating : ℕ → Db → Db
unfolding update_where is_generating is_stale
inline_recover_stale_generating id db =
    update_where (λ s. s.id == id && (is_generating s.status && is_stale db.now s))
      (λ s. record s { status = active; generating_since = none }) db

unfoldable pub cleanup_stale_generating : Db → Db
unfolding update_where is_generating is_stale
cleanup_stale_generating db =
    update_where (λ s. is_generating s.status && is_stale db.now s)
      (λ s. record s { status = active; generating_since = none }) db

unfoldable pub update_session_status : ℕ → Status → ℕ → Db → Db
unfolding update_where
update_session_status id status turns db =
    update_where (λ s. s.id == id)
      (λ s. record s { status = status; ended_at = some db.now; turn_count = turns }) db

unfoldable pub update_session_status_only : ℕ → Status → Db → Db
unfolding update_where
update_session_status_only id status db =
    update_where (λ s. s.id == id) (λ s. record s { status = status }) db

unfoldable pub cancel_session : ℕ → ℕ → Db → Db
unfolding update_where
cancel_session id turns db =
    update_where (λ s. s.id == id)
      (λ s. record s {
        status = cancelled;
        ended_at = some db.now;
        turn_count = turns;
        archived_at = some db.now;
      })
      db

unfoldable pub contains : ℕ → List ℕ → Bool
contains id [] = false
contains id (x ∷ xs) = x == id || contains id xs

unfoldable pub archive_sessions_bulk : Bool → List ℕ → ℕ → Db → Db
unfolding update_where contains
archive_sessions_bulk archive ids user db =
    update_where (λ s. contains s.id ids && s.user == user)
      (λ s. record s { archived_at = if archive then some db.now else none }) db

unfoldable pub is_candidate : Role → Bool
is_candidate candidate = true
is_candidate interviewer = false

unfoldable pub has_candidate_message : ℕ → List Message → Bool
unfolding is_candidate
has_candidate_message id [] = false
has_candidate_message id (m ∷ ms) =
    (m.session == id && is_candidate m.role) || has_candidate_message id ms

-- `started_at + (config_duration_minutes + 5) * INTERVAL '1 minute' < NOW()`
unfoldable pub is_abandoned : ℕ → InterviewSession → Bool
unfolding is_active
is_abandoned now s =
    is_active s.status && ltb (s.started_at + (s.config_duration_minutes + 5) * 60000000) now

unfoldable pub cancel_abandoned_empty_sessions : Db → Db × List InterviewSession
unfolding update_where is_abandoned has_candidate_message
cancel_abandoned_empty_sessions db =
    let hit = λ (s : InterviewSession).
      is_abandoned db.now s && not (has_candidate_message s.id db.messages) in
    (
      update_where hit
          (λ s. record s { status = cancelled; ended_at = some db.now; archived_at = some db.now })
          db,
      select hit db.sessions,
    )

unfoldable pub complete_abandoned_active_sessions : Db → Db × List InterviewSession
unfolding update_where is_abandoned has_candidate_message
complete_abandoned_active_sessions db =
    let hit =
      λ (s : InterviewSession). is_abandoned db.now s && has_candidate_message s.id db.messages in
    (
      update_where hit (λ s. record s { status = completed; ended_at = some db.now }) db,
      select hit db.sessions,
    )
