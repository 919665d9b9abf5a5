-- ===== src/Turn/Input.antt =====
-- internal/backend/turn.go: step 6 of ExecuteTurn, what the candidate has said.
use sabermatic_dev.Prelude.{ℕ, Option, some, none, List, [], ◌∷◌, String, str_eq, if◌then◌else◌}
use sabermatic_dev.Turn.Stream.{
  Outside, Event, ErrorCode, invalid_audio_mime, audio_validation_failed, transcription_failed,
  empty_transcription, empty_content, invalid_input, transcription_result,
}

pub data Request : Type 0 where
  voice_input : String → List ℕ → Request
  text_input : String → Request
  no_input : Request

-- What is heard, with the events on the way and the input method; or why nothing is.
pub data Heard : Type 0 where
  heard : List Event → String → String → Heard
  rejected : ErrorCode → Heard

unfoldable pub valid_audio_mime : String → Option String
valid_audio_mime mime =
    if str_eq mime "audio/webm"
    then some "webm"
    else if str_eq mime "audio/wav"
    then some "wav"
    else if str_eq mime "audio/ogg"
    then some "ogg"
    else if str_eq mime "audio/mpeg"
    then some "mp3"
    else if str_eq mime "audio/mp4"
    then some "m4a"
    else none

-- STT with a single retry.
unfoldable pub transcribe_with_retry : Outside → List ℕ → String → Option String
transcribe_with_retry out audio ext = elim (out.transcribe 0 audio ext) [
  | some text ↦ some text
  | none ↦ out.transcribe 1 audio ext
]

unfoldable pub transcribed : Outside → Option String → Heard
transcribed out none = rejected transcription_failed
transcribed out (some text) =
    if str_eq (out.trim_space text) ""
    then rejected empty_transcription
    else heard (transcription_result text ∷ []) text "voice"

unfoldable pub voice : Outside → Option String → List ℕ → Heard
unfolding transcribe_with_retry transcribed
voice out none audio = rejected invalid_audio_mime
voice out (some ext) [] = rejected audio_validation_failed
voice out (some ext) (b ∷ bs) = transcribed out (transcribe_with_retry out (b ∷ bs) ext)

unfoldable pub candidate_input : Outside → Request → Heard
unfolding valid_audio_mime voice
candidate_input out (voice_input mime audio) =
    voice out (valid_audio_mime (out.base_mime mime)) audio
candidate_input out (text_input content) =
    if str_eq (out.trim_space content) "" then rejected empty_content else heard [] content "text"
candidate_input out no_input = rejected invalid_input
