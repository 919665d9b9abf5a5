-- ===== src/Turn/Stream.antt =====
-- internal/backend/turn.go: streamInterviewerResponse, with the observers of
-- internal/interview/observer that it waits for: the sink and the accumulator.
use Prim.Native.String
use sabermatic_dev.Prelude.{
  ℕ, suc, Bool, true, false, Option, some, none, List, [], ◌∷◌, ◌++◌, String, if◌then◌else◌,
}
use sabermatic_dev.Store.Rows.{Db, Message, interviewer}
use sabermatic_dev.Store.Sessions.{release_generating_status}
use sabermatic_dev.Store.Messages.{insert_message}
use sabermatic_dev.Session.Errors.{Result, ok}

pub data ErrorCode : Type 0 where
  invalid_audio_mime audio_validation_failed transcription_failed empty_transcription : ErrorCode
  empty_content invalid_input persist_failed : ErrorCode
  llm_stream_error : String → ErrorCode

-- What the sink is given, and the analytics event of the first message.
pub data Event : Type 0 where
  transcription_result interviewer_token : String → Event
  interviewer_done : ℕ → Event
  turn_error : ErrorCode → Event
  first_message_sent : Event

-- A reply of the language model: no stream, or tokens that end with EOF or with an error.
pub data LlmStream : Type 0 where
  refused : String → LlmStream
  tokens : List String → Option String → LlmStream

pub data Query : Type 0 where
  acquire_query session_query messages_query seq_query coach_query : Query
  candidate_insert interviewer_insert release_query deferred_release : Query

pub record Outside : Type 0 where
  pub trim_space : String → String
  pub base_mime : String → String
  pub transcribe : ℕ → List ℕ → String → Option String
  pub llm : List Message → LlmStream
  pub answers : Query → Bool

pub record Run : Type 0 where
  pub db : Db
  pub events : List Event
  pub result : Result (Unit {0})
  pub released : Bool

-- The turn returns without an error, and the status is still to be released.
abbrev pub ended : List Event → Db → Run
ended events db = record { db = db; events = events; result = ok tt; released = false }

abbrev pub after : List Event → Run → Run
after events r = record r { events = events ++ r.events }

-- PersistMessage: the id is new; `none` if the query fails or the sequence number is taken.
unfoldable pub persist : Outside → Query → Message → Db → Option Db
persist out q m db =
    if out.answers q then insert_message m (record db { next_id = suc db.next_id }) else none

-- TokenFanOut over sinkTokenWriter and MessageAccumulator.
pub record Fan : Type 0 where
  pub sent : List Event
  pub text : String

unfoldable pub on_token : String → Fan → Fan
on_token token fan = record {
  sent = fan.sent ++ interviewer_token token ∷ [];
  text = String.◌++◌ fan.text token;
}

unfoldable pub on_error : String → Fan → Fan
on_error e fan = record fan { sent = fan.sent ++ turn_error (llm_stream_error e) ∷ [] }

-- The loop over stream.Next.
unfoldable pub pump : List String → Option String → Fan → Fan
unfolding on_token on_error
pump [] none fan = fan
pump [] (some e) fan = on_error e fan
pump (t ∷ ts) ending fan = pump ts ending (on_token t fan)

abbrev pub no_tokens : Fan
no_tokens = record { sent = []; text = "" }

-- After the INSERT of the reply: release the status, then signal that the reply is done.
unfoldable pub replied : Outside → ℕ → ℕ → Fan → Db → Option Db → Run
replied out id message fan db none = ended (fan.sent ++ turn_error persist_failed ∷ []) db
replied out id message fan db (some db') = record {
  db = if out.answers release_query then release_generating_status id db' else db';
  events = fan.sent ++ interviewer_done message ∷ [];
  result = ok tt;
  released = true;
}

abbrev pub reply : ℕ → ℕ → String → Db → Message
reply id sequence text db = record {
  id = db.next_id;
  session = id;
  seq = suc sequence;
  role = interviewer;
  content = text;
  input_method = none;
}

-- What the stream of a reply leads to; a reply that breaks off is not stored.
unfoldable pub streamed : Outside → ℕ → ℕ → Db → LlmStream → Run
unfolding pump replied persist
streamed out id sequence db (refused e) = ended (on_error e no_tokens).sent db
streamed out id sequence db (tokens ts (some e)) = ended (pump ts (some e) no_tokens).sent db
streamed out id sequence db (tokens ts none) =
    let fan = pump ts none no_tokens in
    replied out id db.next_id fan db
      (persist out interviewer_insert (reply id sequence fan.text db) db)

unfoldable pub stream_interviewer_response : Outside → ℕ → List Message → ℕ → Db → Run
unfolding streamed
stream_interviewer_response out id messages sequence db =
    streamed out id sequence db (out.llm messages)
