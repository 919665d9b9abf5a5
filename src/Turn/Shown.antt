-- ===== src/Turn/Shown.antt =====
-- What the client has read of a turn, and what an INSERT of a message leaves.
use Prim.Native.String
use sabermatic_dev.Prelude.{
  suc, ◌⊎◌, ◌≡◌, refl, ap, ◌∙◌, inl, inr, Bool, true, false, ◌||◌, Option, some, none, List, [],
  ◌∷◌, ◌++◌, Bool-cases, String,
}
use sabermatic_dev.Store.Rows.{Db, Message}
use sabermatic_dev.Store.Messages.{insert_message, has_seq}
use sabermatic_dev.Turn.Stream.{
  Outside, Event, transcription_result, interviewer_token, interviewer_done, turn_error,
  first_message_sent, Query, Fan, pump, on_token, persist,
}

-- The text that the client has read, after `text`.
unfoldable pub shown : String → List Event → String
shown text [] = text
shown text (interviewer_token t ∷ es) = shown (String.◌++◌ text t) es
shown text (transcription_result t ∷ es) = shown text es
shown text (interviewer_done m ∷ es) = shown text es
shown text (turn_error c ∷ es) = shown text es
shown text (first_message_sent ∷ es) = shown text es

unfoldable pub is_done : List Event → Bool
is_done [] = false
is_done (interviewer_done m ∷ es) = true
is_done (interviewer_token t ∷ es) = is_done es
is_done (transcription_result t ∷ es) = is_done es
is_done (turn_error c ∷ es) = is_done es
is_done (first_message_sent ∷ es) = is_done es

unfoldable pub last : List Message → Option Message
last [] = none
last (m ∷ []) = some m
last (m ∷ n ∷ ms) = last (n ∷ ms)

pub shown-append :
    (xs ys : List Event) (text : String) → shown text (xs ++ ys) ≡ shown (shown text xs) ys
unfolding shown
shown-append [] ys text = refl
shown-append (interviewer_token t ∷ xs) ys text = shown-append xs ys _
shown-append (transcription_result t ∷ xs) ys text = shown-append xs ys text
shown-append (interviewer_done m ∷ xs) ys text = shown-append xs ys text
shown-append (turn_error c ∷ xs) ys text = shown-append xs ys text
shown-append (first_message_sent ∷ xs) ys text = shown-append xs ys text

pub is_done-append : (xs ys : List Event) → is_done (xs ++ ys) ≡ (is_done xs || is_done ys)
unfolding is_done
is_done-append [] ys = refl
is_done-append (interviewer_token t ∷ xs) ys = is_done-append xs ys
is_done-append (transcription_result t ∷ xs) ys = is_done-append xs ys
is_done-append (interviewer_done m ∷ xs) ys = refl
is_done-append (turn_error c ∷ xs) ys = is_done-append xs ys
is_done-append (first_message_sent ∷ xs) ys = is_done-append xs ys

pub last-append : (ms : List Message) (m : Message) → last (ms ++ m ∷ []) ≡ some m
unfolding last
last-append [] m = refl
last-append (n ∷ []) m = refl
last-append (n ∷ k ∷ ms) m = last-append (k ∷ ms) m

-- The fan has accumulated what it has shown, and has not said that it is done.
pub record InStep (fan : Fan) : Type 0 where
  pub same : shown "" fan.sent ≡ fan.text
  pub open_end : is_done fan.sent ≡ false

pub pump-InStep : (ts : List String) (fan : Fan) → InStep fan → InStep (pump ts none fan)
unfolding pump on_token
pump-InStep [] fan h = h
pump-InStep (t ∷ ts) fan h = pump-InStep ts _ (record {
  same =
      shown-append fan.sent (interviewer_token t ∷ []) ""
      ∙ unfold shown in ap (λ x. String.◌++◌ x t) h.same;
  open_end =
      is_done-append fan.sent (interviewer_token t ∷ []) ∙ rw h.open_end (unfold is_done in refl);
})

-- What an INSERT that succeeds leaves.
abbrev pub with_message : Message → Db → Db
with_message m db = record db { next_id = suc db.next_id; messages = db.messages ++ m ∷ [] }

pub persist_cases :
    (out : Outside) (q : Query) (m : Message) (db : Db)
    → (persist out q m db ≡ none) ⊎ (persist out q m db ≡ some (with_message m db))
unfolding persist insert_message
persist_cases out q m db = elim (Bool-cases (out.answers q)) [
  | inl answers ↦ elim (Bool-cases (has_seq m.session m.seq db.messages)) [
    | inl taken ↦ inl (rw (answers, taken) refl)
    | inr new ↦ inr (rw (answers, new) refl)
  ]
  | inr silent ↦ inl (rw silent refl)
]
