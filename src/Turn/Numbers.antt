-- ===== src/Turn/Numbers.antt =====
-- What a turn relies on: free sequence numbers, and the row of a session that was acquired.
use sabermatic_dev.Prelude.{
  ℕ, ◌<◌, ◌≡◌, ◌≢◌, refl, inl, inr, false, ◌&&◌, ◌||◌, ◌==◌, some, none, List, [], ◌∷◌, ◌++◌, arith,
  select, Bool-cases,
}
use sabermatic_dev.Store.Rows.{Message, InterviewSession}
use sabermatic_dev.Store.Sessions.{find_session, is_active}
use sabermatic_dev.Store.Messages.{has_seq, max_seq}

-- A number above the greatest is free.
pub above_max :
    (session seq : ℕ) (ms : List Message)
    → max_seq (select (λ (m : Message). m.session == session) ms) < seq
    → has_seq session seq ms ≡ false
unfolding max_seq has_seq
above_max session seq [] h = refl
above_max session seq (m ∷ ms) h = elim (Bool-cases (m.session == session)) [
  | inl own ↦ ground (arith, above_max session seq ms)
  | inr other ↦ ground (arith, above_max session seq ms)
]

pub has_seq-append :
    (session seq : ℕ) (ms : List Message) (m : Message)
    → has_seq session seq (ms ++ m ∷ [])
      ≡ (has_seq session seq ms || (m.session == session && m.seq == seq))
unfolding has_seq
has_seq-append session seq [] m = ground arith
has_seq-append session seq (n ∷ ms) m = ground (arith, has_seq-append session seq ms m)

pub has_row :
    (id : ℕ) (ss : List InterviewSession)
    → elim (select (λ (s : InterviewSession). s.id == id && is_active s.status) ss) [
      | [] ↦ none
      | s ∷ _ ↦ some s.id
    ]
      ≢ none
    → (s : InterviewSession) × (find_session id ss ≡ some s)
unfolding find_session
has_row id [] = λ ne. absurd (ne refl)
has_row id (s ∷ ss) = elim (Bool-cases (s.id == id)) [
  | inl own ↦ λ ne. (s, rw own refl)
  | inr other ↦ rw other (has_row id ss)
]
