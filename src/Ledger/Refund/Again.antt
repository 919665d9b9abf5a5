-- ===== src/Ledger/Refund/Again.antt =====
-- A session is refunded once: RefundSessionMinutes is idempotent.
use mathlib.Core.List.{append-nil}
use sabermatic_dev.Prelude.{
  ℕ, ◌-◌, ◌≡◌, refl, ◌⊎◌, inl, inr, true, List, [], ◌∷◌, ◌++◌, map, arith, Option-cases, some, none,
}
use sabermatic_dev.Prelude.Int.{pos}
use sabermatic_dev.Store.Rows.{Db, Grant, LedgerEntry, InterviewSession, session_refund}
use sabermatic_dev.Store.Grants.Shares.{Share, credit, credited, distribute, to_entry}
use sabermatic_dev.Store.Grants.Refund.{
  refundable, reserves, apply_credits, refund_session_minutes, minutes_used, has_refund,
}

List-cases {ℓ} :
    {A : Type ℓ} (xs : List A) → (xs ≡ []) ⊎ ((x : A) × (rest : List A) × (xs ≡ x ∷ rest))
List-cases [] = inl refl
List-cases (x ∷ xs) = inr (x, xs, refl)

has_refund-append :
    (session : ℕ) (es fs : List LedgerEntry)
    → has_refund session fs ≡ true
    → has_refund session (es ++ fs) ≡ true
unfolding has_refund
has_refund-append session [] fs h = h
has_refund-append session (e ∷ es) fs h = ground (arith, has_refund-append session es fs h)

nothing_credited :
    (rows : List Share) (gs : List Grant) → credited rows gs ≡ [] → map (credit rows) gs ≡ gs
unfolding credited credit
nothing_credited rows [] h = refl
nothing_credited rows (g ∷ gs) h = ground (arith, nothing_credited rows gs)

has_refund-to_entry :
    (user session now : ℕ) (s : Share) (rest : List Share)
    → has_refund session
        (map (λ (t : Share). to_entry user session session_refund now (pos t.minutes) t) (s ∷ rest))
      ≡ true
unfolding has_refund to_entry
has_refund-to_entry user session now s rest = ground arith

-- What a refund writes: an entry that bars the next one, or nothing.
module _ (user session : ℕ) (rows : List Share) (db : Db) where
  credits_or_nothing :
      let (db', done) = apply_credits user session session_refund rows db in
      (has_refund session db'.entries ≡ true) ⊎ ((db' ≡ db) × (done ≡ []))
  unfolding apply_credits
  credits_or_nothing = elim (List-cases (credited rows db.grants)) [
    | inl empty ↦ inr (rw (empty, nothing_credited rows db.grants empty, append-nil) (refl, refl))
    | inr (s, rest, e) ↦ inl (
        rw e
          (has_refund-append session db.entries _ (has_refund-to_entry user session db.now s rest)))
  ]

  barred :
      has_refund session (apply_credits user session session_refund rows db).0.entries ≡ true
      → refundable session (apply_credits user session session_refund rows db).0 ≡ none
  unfolding refundable
  barred h = ground arith

refund_none :
    (session : ℕ) (db : Db)
    → refundable session db ≡ none
    → refund_session_minutes session db ≡ (db, [])
unfolding refund_session_minutes
refund_none session db e = rw (e, refund_session_minutes)

pub refund_some :
    (session reserved : ℕ) (s : InterviewSession) (db : Db)
    → refundable session db ≡ some (s, reserved)
    → refund_session_minutes session db
      ≡ apply_credits s.user session session_refund
          (distribute (reserved - minutes_used s.started_at s.ended_at) (reserves session db))
          db
unfolding refund_session_minutes
refund_some session reserved s db e = rw (e, refund_session_minutes)

again :
    (session : ℕ) (db : Db) (r : Db × List Share)
    → refund_session_minutes session db ≡ r
    → (refundable session r.0 ≡ none) ⊎ ((r.0 ≡ db) × (r.1 ≡ []))
    → refund_session_minutes session r.0 ≡ (r.0, [])
again session db r e (inl stop) = refund_none session r.0 stop
again session db r e (inr (same, empty)) = cc

-- A second refund of a session, with no other write between, changes nothing and returns no row.
pub refund_session_minutes_idem :
    (session : ℕ) (db : Db)
    → let db' = (refund_session_minutes session db).0 in
      refund_session_minutes session db' ≡ (db', [])
refund_session_minutes_idem session db = elim (Option-cases (refundable session db)) [
  | inl none_found ↦ rw (refund_none session db none_found) (refund_none session db none_found)
  | inr ((s, reserved), found) ↦
      let e = refund_some session reserved s db found in
      let rows =
        distribute (reserved - minutes_used s.started_at s.ended_at) (reserves session db) in
      rw e (again session db _ e (once s.user rows (credits_or_nothing s.user session rows db)))
]
  where
    once :
        (user : ℕ) (rows : List Share)
        → let (db', done) = apply_credits user session session_refund rows db in
          (has_refund session db'.entries ≡ true) ⊎ ((db' ≡ db) × (done ≡ []))
          → (refundable session db' ≡ none) ⊎ ((db' ≡ db) × (done ≡ []))
    once user rows (inl h) = inl (barred user session rows db h)
    once user rows (inr h) = inr h
