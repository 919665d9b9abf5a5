-- ===== src/Evaluation/Annotated.antt =====
-- internal/jobs/evaluate.go: the rows that the annotations of an evaluation become.
use mathlib.Core.Path.{subst}
use sabermatic_dev.Prelude.{
  some_inj, ℕ, suc, ◌≡◌, refl, sym, ap, ◌∙◌, inl, inr, not, ◌&&◌, List, [], ◌∷◌, ◌++◌, Option, none,
  some, arith, Bool-cases, Option-cases,
}
use mathlib.Core.List.{append_assoc, append-nil}
use sabermatic_dev.Prelude.Int.{ℤ}
use sabermatic_dev.Store.Rows.{Db, Message, AnnotationRow}
use sabermatic_dev.Store.Evaluations.{find_message, has_message, has_annotation, insert_annotation}
use sabermatic_dev.Evaluation.Parse.{Annotation, valid_type}
use sabermatic_dev.Session.Errors.{ok, ok_inj}
use sabermatic_dev.Evaluation.Worker.{seq_map, insert_found, insert_annotations}

-- The rows that the annotations become, with ids from `n` on.
abbrev pub annotation_row : ℕ → ℕ → ℕ → Annotation ℤ → AnnotationRow
annotation_row n evaluation message a = record {
  id = n;
  evaluation = evaluation;
  message = message;
  kind = a.kind;
  content = a.content;
}

unfoldable pub annotation_rows : ℕ → ℕ → List Message → List (Annotation ℤ) → List AnnotationRow
annotation_rows n evaluation messages [] = []
annotation_rows n evaluation messages (a ∷ rest) = elim (seq_map messages a.message_seq) [
  | none ↦ annotation_rows n evaluation messages rest
  | some message ↦
      annotation_row n evaluation message a ∷ annotation_rows (suc n) evaluation messages rest
]

-- Only the annotations and the counter of ids have changed.
pub record IsAnnotated (evaluation : ℕ) (messages : List Message) (written : List (Annotation ℤ))
    (db d : Db) : Type 0 where
  pub annotations :
      d.annotations ≡ db.annotations ++ annotation_rows db.next_id evaluation messages written
  pub evaluations : d.evaluations ≡ db.evaluations
  pub sessions : d.sessions ≡ db.sessions
  pub same_messages : d.messages ≡ db.messages
  pub users : d.users ≡ db.users
  pub now : d.now ≡ db.now

insert_annotation-row :
    (evaluation message : ℕ) (a : Annotation ℤ) (db d : Db)
    → insert_annotation evaluation message a.kind a.content db ≡ some d
    → d ≡ record db {
      annotations = db.annotations ++ annotation_row db.next_id evaluation message a ∷ [];
      next_id = suc db.next_id;
    }
unfolding insert_annotation
insert_annotation-row evaluation message a db d =
    elim (Bool-cases (
      valid_type a.kind
      && (has_message (find_message message db.messages)
          && not (has_annotation evaluation message a.kind db.annotations)))) [
            | inr bad ↦ rw bad (λ h. absurd (ground arith))
            | inl good ↦ rw good (λ h. sym (some_inj h))
          ]

pub annotation_rows-unknown :
    (n evaluation : ℕ) (messages : List Message) (a : Annotation ℤ) (rest : List (Annotation ℤ))
    → seq_map messages a.message_seq ≡ none
    → annotation_rows n evaluation messages (a ∷ rest) ≡ annotation_rows n evaluation messages rest
unfolding annotation_rows
annotation_rows-unknown n evaluation messages a rest e = rw (e, annotation_rows) refl

pub annotation_rows-known :
    (n evaluation message : ℕ) (messages : List Message) (a : Annotation ℤ)
    (rest : List (Annotation ℤ))
    → seq_map messages a.message_seq ≡ some message
    → annotation_rows n evaluation messages (a ∷ rest)
      ≡ annotation_row n evaluation message a ∷ annotation_rows (suc n) evaluation messages rest
unfolding annotation_rows
annotation_rows-known n evaluation message messages a rest e = rw (e, annotation_rows) refl

pub insert_annotations-IsAnnotated :
    (evaluation : ℕ) (messages : List Message) (annotations : List (Annotation ℤ)) (db d : Db)
    → insert_annotations evaluation messages annotations db ≡ ok d
    → IsAnnotated evaluation messages annotations db d
unfolding insert_annotations annotation_rows
insert_annotations-IsAnnotated evaluation messages [] db d h =
    subst (IsAnnotated evaluation messages [] db) (ok_inj h) (record {
      annotations = sym (append-nil db.annotations);
      evaluations = refl;
      sessions = refl;
      same_messages = refl;
      users = refl;
      now = refl;
    })
insert_annotations-IsAnnotated evaluation messages (a ∷ rest) db d h =
    go (seq_map messages a.message_seq) refl
      (λ db'. insert_annotations-IsAnnotated evaluation messages rest db' d) h
  where
    added : ℕ → Db
    added message = record db {
      annotations = db.annotations ++ annotation_row db.next_id evaluation message a ∷ [];
      next_id = suc db.next_id;
    }

    go :
        (o : Option ℕ)
        → seq_map messages a.message_seq ≡ o
        → ((db' : Db)
            → insert_annotations evaluation messages rest db' ≡ ok d
            → IsAnnotated evaluation messages rest db' d)
        → insert_annotations evaluation messages (a ∷ rest) db ≡ ok d
        → IsAnnotated evaluation messages (a ∷ rest) db d
    go none e ih =
        rw (e, insert_annotations)
          (λ h.
            let i = ih db (unfold insert_found in h) in
            record {
              annotations =
                  i.annotations
                  ∙ ap (λ r. db.annotations ++ r)
                      (sym (annotation_rows-unknown db.next_id evaluation messages a rest e));
              evaluations = i.evaluations;
              sessions = i.sessions;
              same_messages = i.same_messages;
              users = i.users;
              now = i.now;
            })
    go (some message) e ih =
        elim (Option-cases (insert_annotation evaluation message a.kind a.content db)) [
          | inl refused ↦
              rw (e, insert_annotations, insert_found, refused) (λ h. absurd (ground arith))
          | inr (db', stored) ↦
              rw (e, insert_annotations, insert_found, stored)
                (λ h.
                  let same = insert_annotation-row evaluation message a db db' stored in
                  let i =
                    ih (added message)
                      (subst (λ x. insert_annotations evaluation messages rest x ≡ ok d) same h) in
                  record {
                    annotations =
                        i.annotations
                        ∙ append_assoc db.annotations _ _
                        ∙ ap (λ r. db.annotations ++ r)
                            (sym (
                              annotation_rows-known db.next_id evaluation message messages a rest
                                e));
                    evaluations = i.evaluations;
                    sessions = i.sessions;
                    same_messages = i.same_messages;
                    users = i.users;
                    now = i.now;
                  })
        ]
