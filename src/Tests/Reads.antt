-- ===== src/Tests/Reads.antt =====
-- The theorems on waits, reads and handed-in results at concrete data.
use sabermatic_dev.Prelude.{
  ◌+◌, ◌≡◌, ◌↔◌, refl, Bool, false, ◌==◌, arith, Option, some, none, [], ◌∷◌, String, All,
}
use sabermatic_dev.Prelude.Int.{ℤ, pos, negsuc}
use sabermatic_dev.Store.Rows.{Db, InterviewSession, Message, active, generating}
use sabermatic_dev.Store.Sessions.{find_session}
use sabermatic_dev.Store.Messages.{get_messages_by_session}
use sabermatic_dev.Session.{get_session, get_session_for_user, get_transcript}
use sabermatic_dev.Session.End.{wait_for_generation}
use sabermatic_dev.Session.Wait.{Ends, wait_for_generation-Ends}
use sabermatic_dev.Session.Privacy.{IsSorted, get_transcript_private}
use sabermatic_dev.Evaluation.Parse.{EvaluationResult, validate_result}
use sabermatic_dev.Evaluation.Coach.{RawCoachInput, parse_analysis}
use sabermatic_dev.Evaluation.Checks.{
  AreScores, IsAnnotation, IsAnalysis, validate_result_iff, parse_analysis-IsAnalysis,
}
use sabermatic_dev.Tests.Data.{store, interview}

abbrev tick : Db → Option Db
tick db = some (record db { now = db.now + 500000 })

wait_for_generation-Ends_example :
    Ends 5 (wait_for_generation tick 5 (store (interview generating ∷ [])))
wait_for_generation-Ends_example =
    wait_for_generation-Ends tick (λ db. omega arith) 5 (store (interview generating ∷ []))

get_transcript_private_example :
    ((s : InterviewSession) × (find_session 5 (store (interview active ∷ [])).sessions ≡ some s)
      × (s.user ≡ 1))
    × All
        (λ (m : Message). m.session ≡ 5)
        (get_messages_by_session 5 (store (interview active ∷ [])))
    × IsSorted (get_messages_by_session 5 (store (interview active ∷ [])))
unfolding get_transcript get_session_for_user get_session find_session
get_transcript_private_example =
    get_transcript_private 5 1 (store (interview active ∷ []))
      (get_messages_by_session 5 (store (interview active ∷ []))) refl

abbrev outcome : EvaluationResult
outcome = record {
  scores = record {
    requirements = pos 3;
    architecture = pos 4;
    deep_dive = pos 2;
    scalability = pos 5;
    communication = pos 1;
    overall = pos 6;
  };
  strengths = [];
  gaps = [];
  advice = "Draw first.";
  annotations = record { message_seq = pos 1; kind = "gap"; content = "No numbers." } ∷ [];
}

abbrev known : ℤ → Bool
known (pos n) = n == 1
known (negsuc n) = false

validate_result_iff_example :
    (validate_result outcome known ≡ none)
    ↔ (AreScores outcome.scores × All (IsAnnotation known) outcome.annotations)
validate_result_iff_example = validate_result_iff outcome known

abbrev decode : String → Option RawCoachInput
decode raw = some (record {
  summary = "";
  narrative = raw;
  weakest_dimension = "architecture";
  improving_dimensions = none;
  topic_gaps = none;
  generated_question =
      some (record { title = "Queue"; prompt = "Design one."; difficulty = "hard"; tags = none });
})

parse_analysis-IsAnalysis_example : IsAnalysis (parse_analysis decode "Well done.")
parse_analysis-IsAnalysis_example = parse_analysis-IsAnalysis decode "Well done."
