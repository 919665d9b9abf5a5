-- ===== src/Evaluation/Coach.antt =====
-- internal/coach/parse.go: Parse.
use sabermatic_dev.Prelude.{not, ◌&&◌, List, Option, some, none, String, str_eq, if◌then◌else◌}
use sabermatic_dev.Evaluation.Parse.{or_empty}

pub record RawGenQuestion : Type 0 where
  pub title : String
  pub prompt : String
  pub difficulty : String
  pub tags : Option (List String)

pub record RawCoachInput : Type 0 where
  pub summary : String
  pub narrative : String
  pub weakest_dimension : String
  pub improving_dimensions : Option (List String)
  pub topic_gaps : Option (List String)
  pub generated_question : Option RawGenQuestion

pub record GeneratedQuestion : Type 0 where
  pub title : String
  pub prompt : String
  pub difficulty : String
  pub tags : List String

pub record CoachResult : Type 0 where
  pub summary : String
  pub narrative : String
  pub weakest_dimension : String
  pub improving_dimensions : List String
  pub topic_gaps : List String
  pub generated_question : Option GeneratedQuestion

pub data CoachProblem : Type 0 where
  not_json narrative_empty prompt_empty difficulty_invalid : CoachProblem

pub data CoachParsed : Type 0 where
  analysis : CoachResult → CoachParsed
  refused : CoachProblem → CoachParsed

abbrev pub with_question : RawCoachInput → Option GeneratedQuestion → CoachResult
with_question input q = record {
  summary = input.summary;
  narrative = input.narrative;
  weakest_dimension = input.weakest_dimension;
  improving_dimensions = or_empty input.improving_dimensions;
  topic_gaps = or_empty input.topic_gaps;
  generated_question = q;
}

-- A question without a title counts as none.
unfoldable pub parse_question : RawCoachInput → Option RawGenQuestion → CoachParsed
parse_question input none = analysis (with_question input none)
parse_question input (some gq) =
    if str_eq gq.title ""
    then analysis (with_question input none)
    else if str_eq gq.prompt ""
    then refused prompt_empty
    else if not (str_eq gq.difficulty "medium") && not (str_eq gq.difficulty "hard")
    then refused difficulty_invalid
    else analysis (
        with_question input (
          some (record {
            title = gq.title;
            prompt = gq.prompt;
            difficulty = gq.difficulty;
            tags = or_empty gq.tags;
          })))

unfoldable pub parse_analysis : (String → Option RawCoachInput) → String → CoachParsed
unfolding parse_question
parse_analysis unmarshal raw = elim (unmarshal raw) [
  | none ↦ refused not_json
  | some input ↦
      if str_eq input.narrative ""
      then refused narrative_empty
      else parse_question input input.generated_question
]
