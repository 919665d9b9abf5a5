-- ===== src/Turn/Complete.antt =====
-- A turn that nothing outside disturbs comes to its end.
use mathlib.Core.List.{append_assoc}
use sabermatic_dev.Prelude.{
  ℕ, suc, ◌≡◌, ◌≢◌, refl, ap, ◌∙◌, true, false, ◌&&◌, ◌||◌, ◌==◌, Option, some, none, List, [], ◌∷◌,
  ◌++◌, arith, if◌then◌else◌, String,
}
use sabermatic_dev.Store.Rows.{Db, Message, InterviewSession, generating}
use sabermatic_dev.Store.Sessions.{
  acquire_generating_status, release_generating_status, update_where, find_session, is_active,
}
use sabermatic_dev.Store.Messages.{
  insert_message, has_seq, get_max_seq_for_session, get_messages_by_session,
}
use sabermatic_dev.Session.Errors.{ok}
use sabermatic_dev.Session.Rows.{find_session-update_where}
use sabermatic_dev.Turn.Stream.{
  Outside, Run, Event, Query, tokens, pump, no_tokens, persist, replied, streamed,
  stream_interviewer_response, interviewer_insert, release_query, acquire_query, reply, after,
  candidate_insert, session_query, messages_query, seq_query, coach_query,
}
use sabermatic_dev.Turn.Input.{Request, heard, candidate_input}
use sabermatic_dev.Turn.{
  load, loaded, answered, take_turn, run_turn, process_input, persist_candidate, release_on_exit,
  run_acquired, execute_turn, is_opening_question, is_crash_recovery, first_message, said,
}
use sabermatic_dev.Turn.Shown.{is_done, is_done-append, with_message}
use sabermatic_dev.Turn.Numbers.{above_max, has_seq-append, has_row}

module _ (out : Outside) (answers : (q : Query) → out.answers q ≡ true) where
  -- The number after the greatest, and the one after that, are free.
  persist_new :
      (q : Query) (m : Message) (db : Db)
      → has_seq m.session m.seq db.messages ≡ false
      → persist out q m db ≡ some (with_message m db)
  unfolding persist insert_message
  persist_new q m db new = rw (answers q, new) refl

  find_acquired :
      (id : ℕ) (db : Db)
      → (acquire_generating_status id db).1 ≢ none
      → (s : InterviewSession) × (find_session id (acquire_generating_status id db).0.sessions
          ≡ some s)
  unfolding acquire_generating_status update_where
  find_acquired id db ne =
      let (s, found) = has_row id db.sessions ne in
      (
        if s.id == id && is_active s.status
            then record s { status = generating; generating_since = some db.now }
            else s,
        find_session-update_where (λ t. t.id == id && is_active t.status)
              (λ t. record t { status = generating; generating_since = some db.now }) (λ t. refl) id
              db
            ∙ rw found refl,
      )

  load_ok :
      (id : ℕ) (db : Db) (s : InterviewSession)
      → find_session id db.sessions ≡ some s
      → load out id db ≡ ok (get_messages_by_session id db, get_max_seq_for_session id db)
  unfolding load
  load_ok id db s found =
      rw
        (
          answers session_query,
          found,
          answers messages_query,
          answers seq_query,
          answers coach_query,
        )
        refl

  module _ (id : ℕ) (db : Db) (content method : String) (ts : List String)
      (streams : (ms : List Message) → out.llm ms ≡ tokens ts none) where
    abbrev next : ℕ
    next = get_max_seq_for_session id db

    abbrev pub candidate_row : Message
    candidate_row = said id next content method db

    abbrev pub reply_row : Message
    reply_row = reply id (suc next) (pump ts none no_tokens).text (with_message candidate_row db)

    abbrev both_stored : Db
    both_stored = with_message reply_row (with_message candidate_row db)

    candidate_stored :
        persist out candidate_insert candidate_row db ≡ some (with_message candidate_row db)
    unfolding get_max_seq_for_session
    candidate_stored =
        persist_new candidate_insert candidate_row db
          (above_max id (suc next) db.messages (omega arith))

    reply_stored :
        persist out interviewer_insert reply_row (with_message candidate_row db) ≡ some both_stored
    unfolding get_max_seq_for_session
    reply_stored = persist_new interviewer_insert reply_row (with_message candidate_row db) (
        has_seq-append id (suc (suc next)) db.messages candidate_row
        ∙ ground (arith, above_max id (suc (suc next)) db.messages))

    -- What the run of the turn leaves.
    pub record Completed (r : Run) : Type 0 where
      pub fine : r.result ≡ ok tt
      pub finished : is_done r.events ≡ true
      pub given_back : r.released ≡ true
      pub both : r.db.messages ≡ db.messages ++ candidate_row ∷ reply_row ∷ []

    Completed-streamed :
        Completed (streamed out id (suc next) (with_message candidate_row db) (tokens ts none))
    unfolding streamed
    Completed-streamed = rw reply_stored (record {
      fine = unfold replied in refl;
      finished =
          unfold replied is_done in is_done-append (pump ts none no_tokens).sent _ ∙ ground arith;
      given_back = unfold replied in refl;
      both =
          unfold replied release_generating_status in
          rw (answers release_query)
            (append_assoc db.messages (candidate_row ∷ []) (reply_row ∷ []));
    })

    Completed-after : (es : List Event) (r : Run) → Completed r → Completed (after es r)
    Completed-after es r c = record {
      fine = c.fine;
      finished = is_done-append es r.events ∙ ground (arith, c.finished);
      given_back = c.given_back;
      both = c.both;
    }

    Completed-run_turn :
        (request : Request) (es : List Event) (s : InterviewSession)
        → find_session id db.sessions ≡ some s
        → candidate_input out request ≡ heard es content method
        → (is_opening_question (get_messages_by_session id db) request
            || is_crash_recovery (get_messages_by_session id db))
          ≡ false
        → Completed (run_turn out id request db)
    unfolding run_turn stream_interviewer_response
    Completed-run_turn request es s found input plain =
        rw (load_ok id db s found, loaded, take_turn, plain, input, process_input)
          (Completed-after es (persist_candidate out id messages next content method db) stored)
      where
        messages : List Message
        messages = get_messages_by_session id db

        stored : Completed (persist_candidate out id messages next content method db)
        stored =
            rw (persist_candidate, candidate_stored, answered)
              (Completed-after (first_message messages)
                (stream_interviewer_response out id (messages ++ candidate_row ∷ []) (suc next)
                  (with_message candidate_row db))
                (rw (streams (messages ++ candidate_row ∷ [])) Completed-streamed))

  finish :
      (id : ℕ) (request : Request) (db : Db) (o : Option ℕ)
      → o ≢ none
      → (run_turn out id request db).released ≡ true
      → let (result, events, db') = run_acquired out id request (db, o) in
        let r = run_turn out id request db in
        (result ≡ r.result) × (events ≡ r.events) × (db'.messages ≡ r.db.messages)
  unfolding run_acquired
  finish id request db none ne given = absurd (ne refl)
  finish id request db (some row) ne given = (refl, refl, rw (release_on_exit, given) refl)

  -- If every query is answered, the session is acquired, the input is heard and asks for a plain
  -- turn (no opening question and no recovery), and the language model streams its tokens to the
  -- end, the turn succeeds, the client is told that the reply is done, and exactly two messages
  -- are added: the candidate's, numbered one past the session's greatest number, and the reply,
  -- numbered two past it.
  pub execute_turn_completes :
      (id : ℕ) (request : Request) (db : Db)
      → (acquire_generating_status id db).1 ≢ none
      → (es : List Event) (content method : String)
      → candidate_input out request ≡ heard es content method
      → (is_opening_question (get_messages_by_session id db) request
          || is_crash_recovery (get_messages_by_session id db))
        ≡ false
      → (ts : List String) (streams : (ms : List Message) → out.llm ms ≡ tokens ts none)
      → let (result, events, db') = execute_turn out id request db in
        (result ≡ ok tt)
        × (is_done events ≡ true)
        × (db'.messages
            ≡ db.messages
              ++ candidate_row id db content method ts streams
                ∷ reply_row id db content method ts streams
                ∷ [])
  unfolding execute_turn acquire_generating_status get_messages_by_session get_max_seq_for_session
  execute_turn_completes id request db acquired es content method input plain ts streams =
      let (s, found) = find_acquired id db acquired in
      let a = acquire_generating_status id db in
      let c = Completed-run_turn id a.0 content method ts streams request es s found input plain in
      let (result, events, stored) = finish id request a.0 a.1 acquired c.given_back in
      rw (answers acquire_query) (result ∙ c.fine, ap is_done events ∙ c.finished, stored ∙ c.both)
