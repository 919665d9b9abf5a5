-- ===== src/Store/Evaluations.antt =====
-- internal/db/evaluations.sql.go: the evaluations and their annotations.
-- An INSERT that the schema refuses returns `none`: the scores from 1 to 5, one evaluation for a
-- session, the types of annotations, the foreign key of message_id, one annotation of a type for a
-- message in an evaluation.
use sabermatic_dev.Prelude.{
  ℕ, suc, Bool, true, false, not, ◌&&◌, ◌||◌, List, [], ◌∷◌, ◌++◌, Option, none, some, String,
  str_eq, ltb, ◌==◌, if◌then◌else◌, select,
}
use sabermatic_dev.Prelude.Int.{ℤ}
use sabermatic_dev.Store.Rows.{Db, Message, EvaluationRow, AnnotationRow}
use sabermatic_dev.Evaluation.Parse.{
  Scores, Problem, Annotation, named_scores, check_scores, valid_type,
}

unfoldable pub find_evaluation : ℕ → List EvaluationRow → Option EvaluationRow
find_evaluation session [] = none
find_evaluation session (e ∷ es) =
    if e.session == session then some e else find_evaluation session es

unfoldable pub get_evaluation_by_session : ℕ → Db → Option EvaluationRow
unfolding find_evaluation
get_evaluation_by_session session db = find_evaluation session db.evaluations

unfoldable pub is_fine : Option Problem → Bool
is_fine none = true
is_fine (some p) = false

unfoldable pub has_evaluation : Option EvaluationRow → Bool
has_evaluation none = false
has_evaluation (some e) = true

unfoldable pub insert_evaluation : ℕ → Scores ℤ → String → String → String → Db → Option (Db × ℕ)
unfolding get_evaluation_by_session is_fine has_evaluation check_scores
insert_evaluation session scores strengths gaps advice db =
    let row : EvaluationRow = record {
      id = db.next_id;
      session = session;
      scores = scores;
      strengths = strengths;
      gaps = gaps;
      advice = advice;
      created_at = db.now;
    } in
    if is_fine (check_scores (named_scores scores))
      && not (has_evaluation (get_evaluation_by_session session db))
    then some (
      record db { evaluations = db.evaluations ++ row ∷ []; next_id = suc db.next_id },
      db.next_id,
    )
    else none

unfoldable pub find_message : ℕ → List Message → Option Message
find_message id [] = none
find_message id (m ∷ ms) = if m.id == id then some m else find_message id ms

unfoldable pub has_message : Option Message → Bool
has_message none = false
has_message (some m) = true

-- UNIQUE (evaluation_id, message_id, annotation_type)
unfoldable pub has_annotation : ℕ → ℕ → String → List AnnotationRow → Bool
has_annotation evaluation message kind [] = false
has_annotation evaluation message kind (a ∷ rest) =
    (a.evaluation == evaluation && (a.message == message && str_eq a.kind kind))
    || has_annotation evaluation message kind rest

unfoldable pub insert_annotation : ℕ → ℕ → String → String → Db → Option Db
unfolding find_message has_message valid_type has_annotation
insert_annotation evaluation message kind content db =
    let row : AnnotationRow = record {
      id = db.next_id;
      evaluation = evaluation;
      message = message;
      kind = kind;
      content = content;
    } in
    if valid_type kind
      && (has_message (find_message message db.messages)
          && not (has_annotation evaluation message kind db.annotations))
    then some (record db { annotations = db.annotations ++ row ∷ []; next_id = suc db.next_id })
    else none

-- The columns of the JOIN that the caller reads.
unfoldable pub join_message : List Message → AnnotationRow → List (Annotation ℕ)
unfolding find_message
join_message messages a = elim (find_message a.message messages) [
  | none ↦ []
  | some m ↦ (record { message_seq = m.seq; kind = a.kind; content = a.content }) ∷ []
]

unfoldable pub join_messages : List Message → List AnnotationRow → List (Annotation ℕ)
unfolding join_message
join_messages messages [] = []
join_messages messages (a ∷ rest) = join_message messages a ++ join_messages messages rest

-- `text_leb` is the order of the database's collation.
module _ (text_leb : String → String → Bool) where
  unfoldable pub is_before : Annotation ℕ → Annotation ℕ → Bool
  is_before a b =
      ltb a.message_seq b.message_seq || (a.message_seq == b.message_seq && text_leb a.kind b.kind)

  unfoldable pub insert_ordered : Annotation ℕ → List (Annotation ℕ) → List (Annotation ℕ)
  unfolding is_before
  insert_ordered a [] = a ∷ []
  insert_ordered a (b ∷ bs) = if is_before a b then a ∷ b ∷ bs else b ∷ insert_ordered a bs

  -- ORDER BY m.seq, a.annotation_type
  unfoldable pub order_annotations : List (Annotation ℕ) → List (Annotation ℕ)
  unfolding insert_ordered
  order_annotations [] = []
  order_annotations (a ∷ rest) = insert_ordered a (order_annotations rest)

  unfoldable pub get_annotations_by_evaluation : ℕ → Db → List (Annotation ℕ)
  unfolding order_annotations join_messages
  get_annotations_by_evaluation evaluation db = order_annotations (
      join_messages db.messages
        (select (λ (a : AnnotationRow). a.evaluation == evaluation) db.annotations))
