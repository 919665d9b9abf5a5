-- ===== src/Session/Rows.antt =====
-- The queries on interview_sessions, seen by the session that an id finds.
use sabermatic_dev.Prelude.{
  ℕ, ◌≡◌, refl, Bool, List, [], ◌∷◌, ◌++◌, map, arith, if◌then◌else◌, Option, some, none,
}
use sabermatic_dev.Store.Rows.{Db, InterviewSession}
use sabermatic_dev.Store.Sessions.{find_session, update_where}

pub find_session-append_new :
    (id : ℕ) (s : InterviewSession) (ss : List InterviewSession)
    → find_session id ss ≡ none
    → s.id ≡ id
    → find_session id (ss ++ s ∷ []) ≡ some s
unfolding find_session
find_session-append_new id s [] h e = ground arith
find_session-append_new id s (t ∷ ss) h e = ground (arith, find_session-append_new id s ss)

abbrev pub changed :
    (InterviewSession → Bool)
    → (InterviewSession → InterviewSession)
    → Option InterviewSession
    → Option InterviewSession
changed hit change none = none
changed hit change (some s) = some (if hit s then change s else s)

-- An UPDATE that leaves ids alone changes the row that an id finds, if its WHERE holds there.
pub find_session-update_where :
    (hit : InterviewSession → Bool) (change : InterviewSession → InterviewSession)
    → ((s : InterviewSession) → (change s).id ≡ s.id)
    → (id : ℕ) (db : Db)
    → find_session id (update_where hit change db).sessions
      ≡ changed hit change (find_session id db.sessions)
unfolding update_where find_session
find_session-update_where hit change same id db = go db.sessions
  where
    go :
        (ss : List InterviewSession)
        → find_session id (map (λ (s : InterviewSession). if hit s then change s else s) ss)
          ≡ changed hit change (find_session id ss)
    go [] = refl
    go (s ∷ ss) = ground (arith, same s, go ss)

pub find_session-id :
    (id : ℕ) (ss : List InterviewSession) (s : InterviewSession)
    → find_session id ss ≡ some s
    → s.id ≡ id
unfolding find_session
find_session-id id [] s h = absurd (ground arith)
find_session-id id (t ∷ ss) s h = ground (arith, find_session-id id ss s)
