-- ===== src/Evaluation/Checks.antt =====
-- What the checks on handed-in results let pass.
use sabermatic_dev.Prelude.{
  ◌≡◌, ◌≢◌, ◌↔◌, ◌≤◌, ◌⊎◌, inl, inr, Bool, true, false, ◌||◌, List, [], ◌∷◌, All, Option, some,
  none, String, str_eq, eq_iff, arith, Bool-cases, Option-cases,
}
use sabermatic_dev.Prelude.Int.{ℤ, pos, negsuc, ltb_ℤ}
use sabermatic_dev.Evaluation.Parse.{
  Scores, Annotation, EvaluationResult, Problem, named_scores, check_scores, check_annotations,
  valid_type, validate_result, first_problem,
}
use sabermatic_dev.Evaluation.Coach.{
  RawCoachInput, RawGenQuestion, CoachParsed, GeneratedQuestion, analysis, refused, parse_question,
  parse_analysis,
}

-- One of 1, …, 5.
abbrev pub IsScore : ℤ → Type 0
IsScore (pos n) = (1 ≤ n) × (n ≤ 5)
IsScore (negsuc n) = ⊥

-- All six.
abbrev pub AreScores : Scores ℤ → Type 0
AreScores s =
    IsScore s.requirements
    × IsScore s.architecture
    × IsScore s.deep_dive
    × IsScore s.scalability
    × IsScore s.communication
    × IsScore s.overall

-- One of the four types.
abbrev pub IsType : String → Type 0
IsType kind = (kind ≡ "strength") ⊎ (kind ≡ "gap") ⊎ (kind ≡ "missed_opportunity") ⊎ (kind ≡ "note")

abbrev pub IsAnnotation : (ℤ → Bool) → Annotation ℤ → Type 0
IsAnnotation known a = (known a.message_seq ≡ true) × IsType a.kind

IsScore-range : (v : ℤ) → (ltb_ℤ v (pos 1) || ltb_ℤ (pos 5) v ≡ false) ↔ IsScore v
IsScore-range (pos n) = ground arith
IsScore-range (negsuc n) = ground arith

scores_pass : (s : Scores ℤ) → (check_scores (named_scores s) ≡ none) ↔ AreScores s
unfolding check_scores
scores_pass s = ground (
  arith,
  IsScore-range s.requirements,
  IsScore-range s.architecture,
  IsScore-range s.deep_dive,
  IsScore-range s.scalability,
  IsScore-range s.communication,
  IsScore-range s.overall,
)

valid_type-IsType : (kind : String) → (valid_type kind ≡ true) ↔ IsType kind
unfolding valid_type
valid_type-IsType kind = ground (
  arith,
  eq_iff kind "strength",
  eq_iff kind "gap",
  eq_iff kind "missed_opportunity",
  eq_iff kind "note",
)

annotations_pass :
    (known : ℤ → Bool) (xs : List (Annotation ℤ))
    → (check_annotations known xs ≡ none) ↔ All (IsAnnotation known) xs
unfolding check_annotations
annotations_pass known [] = ground arith
annotations_pass known (a ∷ rest) =
    ground (arith, valid_type-IsType a.kind, annotations_pass known rest)

no_problem : (a b : Option Problem) → (first_problem a b ≡ none) ↔ ((a ≡ none) × (b ≡ none))
no_problem none b = ground arith
no_problem (some p) b = ground arith

-- Validate returns nil exactly if all six scores are from 1 to 5 and every annotation names a
-- known message and has one of the types strength, gap, missed_opportunity and note.
pub validate_result_iff :
    (result : EvaluationResult) (known : ℤ → Bool)
    → (validate_result result known ≡ none)
      ↔ (AreScores result.scores × All (IsAnnotation known) result.annotations)
unfolding validate_result
validate_result_iff result known =
    let scores = named_scores result.scores in
    let both = no_problem (check_scores scores) (check_annotations known result.annotations) in
    let good = scores_pass result.scores in
    let fits = annotations_pass known result.annotations in
    (λ h. (good.0 (both.0 h).0, fits.0 (both.0 h).1), λ h. both.1 (good.1 h.0, fits.1 h.1))

abbrev pub IsQuestion : Option GeneratedQuestion → Type 0
IsQuestion none = Unit {0}
IsQuestion (some q) =
    (q.title ≢ "") × (q.prompt ≢ "") × ((q.difficulty ≡ "medium") ⊎ (q.difficulty ≡ "hard"))

abbrev pub IsAnalysis : CoachParsed → Type 0
IsAnalysis (refused p) = Unit {0}
IsAnalysis (analysis r) = (r.narrative ≢ "") × IsQuestion r.generated_question

-- Whatever the coach's model hands in, an analysis that is accepted has a narrative, and its
-- question, if there is one, has a title, a prompt and the difficulty `medium` or `hard`.
pub parse_analysis-IsAnalysis :
    (unmarshal : String → Option RawCoachInput) (raw : String)
    → IsAnalysis (parse_analysis unmarshal raw)
unfolding parse_analysis
parse_analysis-IsAnalysis unmarshal raw = elim (Option-cases (unmarshal raw)) [
  | inl bad ↦ rw (bad, IsAnalysis) tt
  | inr (input, e) ↦ elim (Bool-cases (str_eq input.narrative "")) [
    | inl blank ↦ rw (e, IsAnalysis, blank) tt
    | inr told ↦ rw (e, IsAnalysis, told) (question input told input.generated_question)
  ]
]
  where
    question :
        (input : RawCoachInput)
        → str_eq input.narrative "" ≡ false
        → (q : Option RawGenQuestion) → IsAnalysis (parse_question input q)
    question input told none =
        unfold parse_question in (ground (arith, eq_iff input.narrative ""), tt)
    question input told (some q) =
        unfold parse_question in
        ground (
          arith,
          eq_iff input.narrative "",
          eq_iff q.title "",
          eq_iff q.prompt "",
          eq_iff q.difficulty "medium",
          eq_iff q.difficulty "hard",
        )
