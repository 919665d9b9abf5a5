-- ===== src/Session/Privacy.antt =====
-- Whoever reads a transcript owns the session, and reads the session's messages in their order.
use mathlib.Core.Path.{subst}
use sabermatic_dev.Prelude.{
  ℕ, ◌≤◌, ◌≡◌, refl, ap, inl, inr, arith, leb, ◌==◌, List, [], ◌∷◌, select, All, All-imp, some,
  Bool-cases, Option-cases,
}
use sabermatic_dev.Store.Rows.{Db, InterviewSession, Message}
use sabermatic_dev.Store.Sessions.{find_session}
use sabermatic_dev.Store.Messages.{insert_by_seq, sort_by_seq, get_messages_by_session}
use sabermatic_dev.Session.Errors.{Result, ok, err}
use sabermatic_dev.Session.{get_session, get_session_for_user, get_transcript}

abbrev pub IsSorted : List Message → Type 0
IsSorted [] = Unit {0}
IsSorted (m ∷ ms) = All (λ (n : Message). m.seq ≤ n.seq) ms × IsSorted ms

module _ (P : Message → Type 0) where
  All-insert_by_seq :
      (m : Message) (ms : List Message) → P m → All P ms → All P (insert_by_seq m ms)
  unfolding insert_by_seq
  All-insert_by_seq m [] p a = (p, tt)
  All-insert_by_seq m (h ∷ hs) p a = elim (Bool-cases (leb m.seq h.seq)) [
    | inl first ↦ rw first (p, a)
    | inr later ↦ rw later (a.0, All-insert_by_seq m hs p a.1)
  ]

  All-sort_by_seq : (ms : List Message) → All P ms → All P (sort_by_seq ms)
  unfolding sort_by_seq
  All-sort_by_seq [] a = tt
  All-sort_by_seq (m ∷ ms) a = All-insert_by_seq m (sort_by_seq ms) a.0 (All-sort_by_seq ms a.1)

insert_by_seq-IsSorted :
    (m : Message) (ms : List Message) → IsSorted ms → IsSorted (insert_by_seq m ms)
unfolding insert_by_seq
insert_by_seq-IsSorted m [] h = (tt, tt)
insert_by_seq-IsSorted m (n ∷ ns) h = elim (Bool-cases (leb m.seq n.seq)) [
  | inl first ↦ rw first ((ground arith, All-imp _ _ ns (λ k le. ground arith) h.0), h)
  | inr later ↦ rw later (
    All-insert_by_seq (λ k. n.seq ≤ k.seq) m ns (ground arith) h.0,
    insert_by_seq-IsSorted m ns h.1,
  )
]

sort_by_seq-IsSorted : (ms : List Message) → IsSorted (sort_by_seq ms)
unfolding sort_by_seq
sort_by_seq-IsSorted [] = tt
sort_by_seq-IsSorted (m ∷ ms) = insert_by_seq-IsSorted m (sort_by_seq ms) (sort_by_seq-IsSorted ms)

select-own :
    (session : ℕ) (ms : List Message)
    → All (λ (m : Message). m.session ≡ session) (select (λ (m : Message). m.session == session) ms)
select-own session [] = tt
select-own session (m ∷ ms) = elim (Bool-cases (m.session == session)) [
  | inl own ↦ rw own (ground arith, select-own session ms)
  | inr other ↦ rw other (select-own session ms)
]

abbrev value_of : Result (List Message) → List Message
value_of (ok ms) = ms
value_of (err e) = []

-- If GetTranscript returns messages, the session is there and belongs to the user who asks, all
-- the messages are the session's, and they stand in the order of their numbers.
pub get_transcript_private :
    (id user : ℕ) (db : Db) (ms : List Message)
    → get_transcript id user db ≡ ok ms
    → ((s : InterviewSession) × (find_session id db.sessions ≡ some s) × (s.user ≡ user))
      × All (λ (m : Message). m.session ≡ id) ms
      × IsSorted ms
unfolding get_transcript get_session_for_user get_session get_messages_by_session
get_transcript_private id user db ms = elim (Option-cases (find_session id db.sessions)) [
  | inl missing ↦ rw missing (λ h. absurd (ground arith))
  | inr (s, found) ↦ elim (Bool-cases (s.user == user)) [
    | inr stranger ↦ rw (found, stranger) (λ h. absurd (ground arith))
    | inl owner ↦ rw (found, owner) (λ h. ((s, refl, ground arith), (messages h).0, (messages h).1))
  ]
]
  where
    sorted_own :
        All (λ (m : Message). m.session ≡ id) (get_messages_by_session id db)
        × IsSorted (get_messages_by_session id db)
    sorted_own = (
      All-sort_by_seq (λ m. m.session ≡ id) (select (λ (m : Message). m.session == id) db.messages)
          (select-own id db.messages),
      sort_by_seq-IsSorted (select (λ (m : Message). m.session == id) db.messages),
    )

    messages :
        ok (get_messages_by_session id db) ≡ ok ms
        → All (λ (m : Message). m.session ≡ id) ms × IsSorted ms
    messages h =
        subst (λ (l : List Message). All (λ (m : Message). m.session ≡ id) l × IsSorted l)
          (ap value_of h) sorted_own
