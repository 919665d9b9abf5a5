-- ===== src/Turn/Release.antt =====
-- A turn does not leave its session in the state `generating`.
use sabermatic_dev.Prelude.{
  inl, inr, ℕ, ◌≡◌, ◌≢◌, refl, true, false, ◌&&◌, ◌||◌, ◌==◌, Option, some, none, List, [], ◌∷◌,
  map, All, arith, if◌then◌else◌, Bool-cases,
}
use sabermatic_dev.Store.Rows.{Db, InterviewSession, Message, active}
use sabermatic_dev.Store.Sessions.{
  is_generating, acquire_generating_status, release_generating_status,
}
use sabermatic_dev.Session.Errors.{Result, ok, err}
use sabermatic_dev.Turn.Stream.{
  Outside, Run, Event, LlmStream, refused, tokens, Fan, pump, no_tokens, persist, replied, streamed,
  stream_interviewer_response, interviewer_insert, release_query, acquire_query, deferred_release,
  after,
}
use sabermatic_dev.Turn.Input.{Request, Heard, heard, rejected}
use sabermatic_dev.Turn.{
  load, loaded, answered, take_turn, run_turn, process_input, persist_candidate, release_on_exit,
  run_acquired, execute_turn, is_opening_question, is_crash_recovery,
}

-- No row of the session is `generating`.
abbrev pub IsReleased : ℕ → Db → Type 0
IsReleased id db =
    All (λ (s : InterviewSession). s.id ≡ id → is_generating s.status ≡ false) db.sessions

pub release-IsReleased : (id : ℕ) (db : Db) → IsReleased id (release_generating_status id db)
unfolding release_generating_status
release-IsReleased id db = go db.sessions
  where
    go :
        (ss : List InterviewSession)
        → All
            (λ (s : InterviewSession). s.id ≡ id → is_generating s.status ≡ false)
            (map
              (λ (s : InterviewSession).
                if s.id == id && is_generating s.status
                then record s { status = active; generating_since = none }
                else s)
              ss)
    go [] = tt
    go (s ∷ ss) = (ground arith, go ss)

-- A run that says that it has released the status has done so.
abbrev Honest : ℕ → Run → Type 0
Honest id r = r.released ≡ true → IsReleased id r.db

module _ (out : Outside) (id : ℕ) (works : out.answers release_query ≡ true) where
  Honest-streamed :
      (sequence : ℕ) (db : Db) (s : LlmStream) → Honest id (streamed out id sequence db s)
  unfolding streamed
  Honest-streamed sequence db (refused e) h = absurd (ground arith)
  Honest-streamed sequence db (tokens ts (some e)) h = absurd (ground arith)
  Honest-streamed sequence db (tokens ts none) h =
      go (pump ts none no_tokens) (persist out interviewer_insert _ db) h
    where
      go : (fan : Fan) (o : Option Db) → Honest id (replied out id db.next_id fan db o)
      go fan none h = absurd (unfold replied in ground arith)
      go fan (some db') h = unfold replied in rw works (release-IsReleased id db')

  Honest-after : (events : List Event) (r : Run) → Honest id r → Honest id (after events r)
  Honest-after events r h = h

  Honest-answered :
      (messages : List Message) (m : Message) (db : Db) (o : Option Db)
      → Honest id (answered out id messages m db o)
  unfolding answered stream_interviewer_response
  Honest-answered messages m db none h = absurd (ground arith)
  Honest-answered messages m db (some db') h = Honest-streamed m.seq db' _ h

  Honest-process_input :
      (messages : List Message) (sequence : ℕ) (x : Heard) (db : Db)
      → Honest id (process_input out id messages sequence x db)
  unfolding process_input persist_candidate
  Honest-process_input messages sequence (rejected code) db h = absurd (ground arith)
  Honest-process_input messages sequence (heard events content method) db h =
      Honest-answered messages _ db _ h

  Honest-loaded :
      (request : Request) (db : Db) (r : Result (List Message × ℕ))
      → Honest id (loaded out id request db r)
  unfolding loaded take_turn stream_interviewer_response
  Honest-loaded request db (err e) = λ h. absurd (ground arith)
  Honest-loaded request db (ok (messages, sequence)) =
      elim (Bool-cases (is_opening_question messages request || is_crash_recovery messages)) [
        | inl at_once ↦ rw at_once (Honest-streamed sequence db _)
        | inr later ↦ rw later (Honest-process_input messages sequence _ db)
      ]

  -- If both releases are answered by Postgres, a turn that has acquired its session leaves no row
  -- of the session `generating`, whichever way the turn ends.
  pub execute_turn_releases :
      out.answers deferred_release ≡ true
      → out.answers acquire_query ≡ true
      → (request : Request) (db : Db) → (acquire_generating_status id db).1 ≢ none
      → IsReleased id (execute_turn out id request db).2
  unfolding execute_turn
  execute_turn_releases deferred answered_first request db =
      rw answered_first (go (acquire_generating_status id db))
    where
      exit : (r : Run) → Honest id r → IsReleased id (release_on_exit out id r)
      exit r h = elim (Bool-cases r.released) [
        | inl yes_released ↦ rw (release_on_exit, yes_released) (h yes_released)
        | inr still_held ↦ rw (release_on_exit, still_held, deferred) (release-IsReleased id r.db)
      ]

      go : (a : Db × Option ℕ) → a.1 ≢ none → IsReleased id (run_acquired out id request a).2
      go (d, none) ne = absurd (ne refl)
      go (d, some row) ne =
          unfold run_acquired in
          exit (run_turn out id request d)
            (unfold run_turn in Honest-loaded request d (load out id d))
