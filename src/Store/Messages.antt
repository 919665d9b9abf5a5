-- ===== src/Store/Messages.antt =====
-- internal/db/messages.sql.go and interview.sql.go: the queries on messages.
use sabermatic_dev.Prelude.{
  not, ℕ, max, Bool, true, false, ◌&&◌, ◌||◌, Option, none, some, List, [], ◌∷◌, ◌++◌, leb, ◌==◌,
  if◌then◌else◌, select, length, drop,
}
use sabermatic_dev.Store.Rows.{Db, Message, Role, interviewer, candidate}

unfoldable pub insert_by_seq : Message → List Message → List Message
insert_by_seq m [] = m ∷ []
insert_by_seq m (h ∷ hs) = if leb m.seq h.seq then m ∷ h ∷ hs else h ∷ insert_by_seq m hs

-- ORDER BY seq
unfoldable pub sort_by_seq : List Message → List Message
unfolding insert_by_seq
sort_by_seq [] = []
sort_by_seq (m ∷ ms) = insert_by_seq m (sort_by_seq ms)

unfoldable pub get_messages_by_session : ℕ → Db → List Message
unfolding sort_by_seq
get_messages_by_session session db =
    sort_by_seq (select (λ (m : Message). m.session == session) db.messages)

unfoldable pub get_messages_by_session_offset : ℕ → ℕ → Db → List Message
unfolding get_messages_by_session
get_messages_by_session_offset session offset db = drop offset (get_messages_by_session session db)

unfoldable pub max_seq : List Message → ℕ
max_seq [] = 0
max_seq (m ∷ ms) = max m.seq (max_seq ms)

unfoldable pub get_max_seq_for_session : ℕ → Db → ℕ
unfolding max_seq
get_max_seq_for_session session db =
    max_seq (select (λ (m : Message). m.session == session) db.messages)

unfoldable pub is_interviewer : Role → Bool
is_interviewer interviewer = true
is_interviewer candidate = false

unfoldable pub count_interviewer_messages : ℕ → Db → ℕ
unfolding is_interviewer
count_interviewer_messages session db =
    length (select (λ (m : Message). m.session == session && is_interviewer m.role) db.messages)

unfoldable pub has_seq : ℕ → ℕ → List Message → Bool
has_seq session seq [] = false
has_seq session seq (m ∷ ms) = (m.session == session && m.seq == seq) || has_seq session seq ms

-- UNIQUE (session_id, seq): `none` if the pair is taken.
unfoldable pub insert_message : Message → Db → Option Db
unfolding has_seq
insert_message m db =
    if has_seq m.session m.seq db.messages
    then none
    else some (record db { messages = db.messages ++ m ∷ [] })

unfoldable pub is_candidate_message : Message → Bool
unfolding is_interviewer
is_candidate_message m = not (is_interviewer m.role)
