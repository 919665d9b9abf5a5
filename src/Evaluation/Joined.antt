-- ===== src/Evaluation/Joined.antt =====
-- The rows that the annotations of an evaluation become, joined with their messages again.
use mathlib.Core.Path.{subst}
use sabermatic_dev.Prelude.{
  some_inj, ℕ, suc, ◌≡◌, refl, sym, ap, ◌∙◌, inl, inr, true, false, List, [], ◌∷◌, ◌++◌, map,
  Option, none, some, ◌==◌, arith, All, select, Bool-cases, Option-cases,
}
use sabermatic_dev.Prelude.Int.{ℤ, pos, negsuc, pos_part}
use sabermatic_dev.Store.Rows.{Message, AnnotationRow}
use sabermatic_dev.Store.Evaluations.{find_message, join_message, join_messages}
use sabermatic_dev.Evaluation.Parse.{Annotation}
use sabermatic_dev.Evaluation.Checks.{IsAnnotation}
use sabermatic_dev.Evaluation.Worker.{seq_map, later_or, is_seq, is_key, known_seq}
use sabermatic_dev.Evaluation.Annotated.{
  annotation_row, annotation_rows, annotation_rows-known, annotation_rows-unknown,
}

-- An annotation with its number as the database has it.
abbrev pub numbered : Annotation ℤ → Annotation ℕ
numbered a = record { message_seq = pos_part a.message_seq; kind = a.kind; content = a.content }

-- Each message is the one that its id finds.
abbrev pub AreKeyed : List Message → List Message → Type 0
AreKeyed table = All (λ (m : Message). find_message m.id table ≡ some m)

-- The message behind an entry of the map.
pub record IsEntry (table : List Message) (seq : ℤ) (id : ℕ) : Type 0 where
  pub message : Message
  pub keyed : find_message id table ≡ some message
  pub numbered : seq ≡ pos message.seq

is_seq→eq : (seq : ℤ) (n : ℕ) → is_seq seq n ≡ true → seq ≡ pos n
unfolding is_seq
is_seq→eq (pos k) n h = ap pos (ground (arith, h))
is_seq→eq (negsuc k) n h = absurd (ground arith)

seq_map-IsEntry :
    (table ms : List Message) (seq : ℤ) (id : ℕ)
    → AreKeyed table ms
    → seq_map ms seq ≡ some id
    → IsEntry table seq id
unfolding seq_map
seq_map-IsEntry table [] seq id k h = absurd (ground arith)
seq_map-IsEntry table (m ∷ ms) seq id k h =
    go (seq_map ms seq) (seq_map-IsEntry table ms seq id k.1) h
  where
    go :
        (o : Option ℕ)
        → (o ≡ some id → IsEntry table seq id)
        → later_or o (is_seq seq m.seq) m.id ≡ some id
        → IsEntry table seq id
    go (some i) later = λ h. later (unfold later_or in h)
    go none later = elim (Bool-cases (is_seq seq m.seq)) [
      | inr other ↦ rw (other, later_or) (λ h. absurd (ground arith))
      | inl this ↦
          rw (this, later_or)
            (λ h. record {
              message = m;
              keyed = subst (λ i. find_message i table ≡ some m) (some_inj h) k.0;
              numbered = is_seq→eq seq m.seq this;
            })
    ]

-- The rows of one evaluation, joined with their messages, are its annotations again.
pub join-annotation_rows :
    (n evaluation : ℕ) (table ms : List Message) (written : List (Annotation ℤ))
    → AreKeyed table ms
    → All (IsAnnotation (known_seq ms)) written
    → join_messages table (annotation_rows n evaluation ms written) ≡ map numbered written
unfolding annotation_rows join_messages join_message known_seq is_key
join-annotation_rows n evaluation table ms [] k h = refl
join-annotation_rows n evaluation table ms (a ∷ rest) k h =
    go (seq_map ms a.message_seq) refl h.0.0
      (join-annotation_rows (suc n) evaluation table ms rest k h.1)
  where
    one :
        (message : ℕ)
        → seq_map ms a.message_seq ≡ some message
        → join_message table (annotation_row n evaluation message a) ≡ numbered a ∷ []
    one message e =
        let entry = seq_map-IsEntry table ms a.message_seq message k e in
        rw (entry.keyed, join_message)
          (ap (λ q. record { message_seq = q; kind = a.kind; content = a.content } ∷ [])
            (ap pos_part (sym entry.numbered)))

    go :
        (o : Option ℕ)
        → seq_map ms a.message_seq ≡ o
        → known_seq ms a.message_seq ≡ true
        → join_messages table (annotation_rows (suc n) evaluation ms rest) ≡ map numbered rest
        → join_messages table (annotation_rows n evaluation ms (a ∷ rest))
          ≡ numbered a ∷ map numbered rest
    go none e known ih =
        let no_key : is_key none ≡ true = subst (λ o. is_key o ≡ true) e known in
        absurd (ground (arith, no_key))
    go (some message) e known ih =
        ap (join_messages table) (annotation_rows-known n evaluation message ms a rest e)
        ∙ ap (λ l. l ++ join_messages table (annotation_rows (suc n) evaluation ms rest))
            (one message e)
        ∙ ap (λ l. numbered a ∷ l) ih

-- No row of another evaluation among the new ones, and none of the new one among the old.
pub select-annotation_rows :
    (n evaluation : ℕ) (ms : List Message) (written : List (Annotation ℤ))
    → select
        (λ (r : AnnotationRow). r.evaluation == evaluation)
        (annotation_rows n evaluation ms written)
      ≡ annotation_rows n evaluation ms written
unfolding annotation_rows
select-annotation_rows n evaluation ms [] = refl
select-annotation_rows n evaluation ms (a ∷ rest) = elim (Option-cases (seq_map ms a.message_seq)) [
  | inl e ↦
      rw (annotation_rows-unknown n evaluation ms a rest e)
        (select-annotation_rows n evaluation ms rest)
  | inr (message, e) ↦
      rw (annotation_rows-known n evaluation message ms a rest e)
        (ground (arith, select-annotation_rows (suc n) evaluation ms rest))
]

pub select-others :
    (evaluation : ℕ) (old new : List AnnotationRow)
    → All (λ (r : AnnotationRow). (r.evaluation == evaluation) ≡ false) old
    → select (λ (r : AnnotationRow). r.evaluation == evaluation) (old ++ new)
      ≡ select (λ (r : AnnotationRow). r.evaluation == evaluation) new
select-others evaluation [] new h = refl
select-others evaluation (r ∷ old) new h = rw h.0 (select-others evaluation old new h.1)
