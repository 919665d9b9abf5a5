-- ===== src/Evaluation/Educator.antt =====
-- internal/educator/parse.go: Parse.
use sabermatic_dev.Prelude.{Option, some, none, String, str_eq, if◌then◌else◌}

pub record EducatorResult : Type 0 where
  pub model_answer : String
  pub gap_deep_dives : String

pub data EducatorParsed : Type 0 where
  education : EducatorResult → EducatorParsed
  not_json model_answer_empty gap_deep_dives_empty : EducatorParsed

-- The raw structure has the fields of the result.
unfoldable pub parse_education : (String → Option EducatorResult) → String → EducatorParsed
parse_education unmarshal raw = elim (unmarshal raw) [
  | none ↦ not_json
  | some input ↦
      if str_eq input.model_answer ""
      then model_answer_empty
      else if str_eq input.gap_deep_dives ""
      then gap_deep_dives_empty
      else education input
]
