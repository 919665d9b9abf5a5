-- ===== src/Evaluation/Parse.antt =====
-- internal/evaluation/parse.go: Parse and Validate.
use sabermatic_dev.Prelude.{
  Bool, not, ◌||◌, List, [], ◌∷◌, map, Option, some, none, String, str_eq, if◌then◌else◌,
}
use sabermatic_dev.Prelude.Int.{ℤ, pos, ltb_ℤ}

pub record Scores (Number : Type 0) : Type 0 where
  pub requirements : Number
  pub architecture : Number
  pub deep_dive : Number
  pub scalability : Number
  pub communication : Number
  pub overall : Number

pub record Annotation (Number : Type 0) : Type 0 where
  pub message_seq : Number
  pub kind : String
  pub content : String

pub record RawToolInput (Number : Type 0) : Type 0 where
  pub scores : Option (Scores Number)
  pub strengths : Option (List String)
  pub gaps : Option (List String)
  pub advice : String
  pub annotations : List (Annotation Number)

pub record EvaluationResult : Type 0 where
  pub scores : Scores ℤ
  pub strengths : List String
  pub gaps : List String
  pub advice : String
  pub annotations : List (Annotation ℤ)

pub data Problem : Type 0 where
  not_json missing_scores : Problem
  score_out_of_range : String → ℤ → Problem
  unknown_message_seq : ℤ → Problem
  invalid_type : String → Problem

pub data Parsed {ℓ} (T : Type ℓ) : Type ℓ where
  parsed : T → Parsed T
  refused : Problem → Parsed T

abbrev pub or_empty : Option (List String) → List String
or_empty none = []
or_empty (some xs) = xs

module _ (Number : Type 0) (int32_of : Number → ℤ)
    (unmarshal : String → Option (RawToolInput Number)) where
  abbrev pub to_annotation : Annotation Number → Annotation ℤ
  to_annotation a = record {
    message_seq = int32_of a.message_seq;
    kind = a.kind;
    content = a.content;
  }

  abbrev pub to_scores : Scores Number → Scores ℤ
  to_scores s = record {
    requirements = int32_of s.requirements;
    architecture = int32_of s.architecture;
    deep_dive = int32_of s.deep_dive;
    scalability = int32_of s.scalability;
    communication = int32_of s.communication;
    overall = int32_of s.overall;
  }

  unfoldable pub parse_input :
      RawToolInput Number → Option (Scores Number) → Parsed EvaluationResult
  parse_input input none = refused missing_scores
  parse_input input (some scores) = parsed (record {
    scores = to_scores scores;
    strengths = or_empty input.strengths;
    gaps = or_empty input.gaps;
    advice = input.advice;
    annotations = map to_annotation input.annotations;
  })

  unfoldable pub parse : String → Parsed EvaluationResult
  unfolding parse_input
  parse raw = elim (unmarshal raw) [
    | none ↦ refused not_json
    | some input ↦ parse_input input input.scores
  ]

abbrev pub named_scores : Scores ℤ → List (String × ℤ)
named_scores s =
    ("requirements", s.requirements)
    ∷ ("architecture", s.architecture)
    ∷ ("deep_dive", s.deep_dive)
    ∷ ("scalability", s.scalability)
    ∷ ("communication", s.communication)
    ∷ ("overall", s.overall)
    ∷ []

unfoldable pub check_scores : List (String × ℤ) → Option Problem
check_scores [] = none
check_scores ((name, value) ∷ rest) =
    if ltb_ℤ value (pos 1) || ltb_ℤ (pos 5) value
    then some (score_out_of_range name value)
    else check_scores rest

unfoldable pub valid_type : String → Bool
valid_type t =
    str_eq t "strength" || str_eq t "gap" || str_eq t "missed_opportunity" || str_eq t "note"

-- `known` says which numbers are keys of seqMap.
unfoldable pub check_annotations : (ℤ → Bool) → List (Annotation ℤ) → Option Problem
unfolding valid_type
check_annotations known [] = none
check_annotations known (a ∷ rest) =
    if not (known a.message_seq)
    then some (unknown_message_seq a.message_seq)
    else if not (valid_type a.kind)
    then some (invalid_type a.kind)
    else check_annotations known rest

abbrev pub first_problem : Option Problem → Option Problem → Option Problem
first_problem (some p) later = some p
first_problem none later = later

-- `none` is Go's nil.
unfoldable pub validate_result : EvaluationResult → (ℤ → Bool) → Option Problem
unfolding check_scores check_annotations
validate_result result known =
    first_problem (check_scores (named_scores result.scores))
      (check_annotations known result.annotations)
