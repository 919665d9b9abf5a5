-- ===== src/Ledger/Refund/Bounds.antt =====
-- A refund keeps the books, and gives back no more than the session has left of its reservation.
use sabermatic_dev.Prelude.{
  ℕ, zero, suc, ◌+◌, ◌-◌, ◌*◌, ◌<◌, false, ◌&&◌, ◌⊎◌, Option, ◌≤◌, ◌≡◌, ◌≢◌, refl, inl, inr, true,
  List, [], ◌∷◌, arith, ◌==◌, if◌then◌else◌, All, some_inj, sym, ap, ◌∙◌, All-imp, Bool-cases,
  Option-cases, ==_iff, some, none,
}
use sabermatic_dev.Store.Rows.{Db, Grant, LedgerEntry, InterviewSession, Reason, session_refund}
use sabermatic_dev.Store.Grants.Shares.{Share, share_of, credited, credit_of, distribute}
use sabermatic_dev.Store.Grants.Refund.{
  refundable, reserves, apply_credits, refund_session_minutes, full_refund_session_minutes,
  minutes_used, is_entry_of, is_refund, has_refund,
}
use sabermatic_dev.Store.Sessions.{find_session}
use sabermatic_dev.Ledger.Shares.{Distinct, minutes_of, minutes_of-distribute}
use sabermatic_dev.Ledger.Books.{IsBooked, credit-IsBooked}
use sabermatic_dev.Ledger.Reserve.Sums.{sum_if, minutes_of-updated}

-- If the books are right, so they are after RefundSessionMinutes, for whichever session.
pub refund_session_minutes-IsBooked :
    (session : ℕ) (db : Db) → IsBooked db → IsBooked (refund_session_minutes session db).0
unfolding refund_session_minutes apply_credits
refund_session_minutes-IsBooked session db h = elim (Option-cases (refundable session db)) [
  | inl none_found ↦ rw (none_found, refund_session_minutes) h
  | inr ((s, reserved), found) ↦
      rw (found, refund_session_minutes)
        (credit-IsBooked db s.user session session_refund
          (distribute (reserved - minutes_used s.started_at s.ended_at) (reserves session db)) h)
]

-- If the books are right, so they are after FullRefundSessionMinutes, for whichever session and
-- reason.
pub full_refund_session_minutes-IsBooked :
    (reason : Reason) (session : ℕ) (db : Db)
    → IsBooked db
    → IsBooked (full_refund_session_minutes reason session db).0
unfolding full_refund_session_minutes apply_credits
full_refund_session_minutes-IsBooked reason session db h =
    elim (Option-cases (refundable session db)) [
      | inl none_found ↦ rw (none_found, full_refund_session_minutes) h
      | inr ((s, reserved), found) ↦
          rw (found, full_refund_session_minutes)
            (credit-IsBooked db s.user session reason (distribute reserved (reserves session db)) h)
    ]

sum_if-none :
    (id n : ℕ) (gs : List Grant)
    → All (λ (h : Grant). h.id ≢ id) gs
    → sum_if (λ g. true) (λ g. if id == g.id then n else 0) gs ≡ 0
sum_if-none id n [] a = refl
sum_if-none id n (h ∷ hs) a = ground (arith, sum_if-none id n hs a.1)

sum_if-single-le :
    (id n : ℕ) (gs : List Grant)
    → Distinct gs
    → sum_if (λ g. true) (λ g. if id == g.id then n else 0) gs ≤ n
sum_if-single-le id n [] d = omega arith
sum_if-single-le id n (g ∷ gs) d = elim (Bool-cases (id == g.id)) [
  | inl here ↦ ground (
    arith,
    sum_if-none id n gs (All-imp _ _ gs (λ h p e. p (omega (arith, (==_iff id g.id).0 here))) d.0),
  )
  | inr there ↦ ground (arith, sum_if-single-le id n gs d.1)
]

split_share :
    (s : Share) (rest : List Share) (gs : List Grant)
    → sum_if (λ g. true) (λ g. share_of g.id (s ∷ rest)) gs
      ≤ sum_if (λ g. true) (λ g. if s.grant == g.id then s.minutes else 0) gs
        + sum_if (λ g. true) (λ g. share_of g.id rest) gs
unfolding share_of
split_share s rest [] = omega arith
split_share s rest (g ∷ gs) = ground (arith, split_share s rest gs)

no_shares : (hs : List Grant) → sum_if (λ g. true) (λ g. share_of g.id []) hs ≤ 0
unfolding share_of
no_shares [] = omega arith
no_shares (h ∷ hs) = omega (arith, no_shares hs)

sum_if-share_of-le :
    (rows : List Share) (gs : List Grant)
    → Distinct gs
    → sum_if (λ g. true) (λ g. share_of g.id rows) gs ≤ minutes_of rows
sum_if-share_of-le [] gs d = no_shares gs
sum_if-share_of-le (s ∷ rest) gs d = omega (
  arith,
  split_share s rest gs,
  sum_if-single-le s.grant s.minutes gs d,
  sum_if-share_of-le rest gs d,
)

credit_of-le :
    (rows : List Share) (gs : List Grant)
    → sum_if (λ g. true) (credit_of rows) gs ≤ sum_if (λ g. true) (λ g. share_of g.id rows) gs
unfolding credit_of
credit_of-le rows [] = omega arith
credit_of-le rows (g ∷ gs) = ground (arith, credit_of-le rows gs)

-- The rows that a refund returns hold no more than was distributed.
minutes_of-credited :
    (total : ℕ) (rows : List Share) (gs : List Grant)
    → Distinct gs
    → minutes_of (credited (distribute total rows) gs) ≤ total
unfolding credited
minutes_of-credited total rows gs d = omega (
  arith,
  minutes_of-updated (credit_of (distribute total rows)) gs,
  credit_of-le (distribute total rows) gs,
  sum_if-share_of-le (distribute total rows) gs d,
  minutes_of-distribute total rows,
)

-- The microseconds between the start of a session and its end; none without an end.
abbrev pub elapsed : ℕ → Option ℕ → ℕ
elapsed started none = 0
elapsed started (some ended) = ended - started

-- A ledger entry that is the refund of this session.
abbrev pub IsRefundOf : ℕ → LedgerEntry → Type 0
IsRefundOf session e = (e.session ≡ some session) × (e.reason ≡ session_refund)

-- `back` minutes are fair for a session that has reserved minutes and no refund yet.
pub record IsFair (session back : ℕ) (db : Db) : Type 0 where
  pub row : InterviewSession
  pub reserved : ℕ
  pub found : find_session session db.sessions ≡ some row
  pub has_reserved : row.reserved_minutes ≡ some reserved
  pub not_refunded : All (λ (e : LedgerEntry). ¬ IsRefundOf session e) db.entries
  pub one_charged : back + 1 ≤ reserved
  pub time_charged : back * 60000000 + elapsed row.started_at row.ended_at ≤ reserved * 60000000

minutes_used-charged :
    (started : ℕ) (ended : Option ℕ) (reserved back : ℕ)
    → 0 < back
    → back ≤ reserved - minutes_used started ended
    → (back + 1 ≤ reserved) × (back * 60000000 + elapsed started ended ≤ reserved * 60000000)
unfolding minutes_used
minutes_used-charged started none reserved back some_back h =
    (omega (arith, h, some_back), omega (arith, h, some_back))
minutes_used-charged started (some ended) reserved back some_back h =
    (ground (arith, h, some_back), ground (arith, h, some_back))

entry-IsRefundOf :
    (session : ℕ) (e : LedgerEntry)
    → (is_entry_of session e && is_refund e.reason) ≡ false
    → ¬ IsRefundOf session e
unfolding is_entry_of is_refund
entry-IsRefundOf session e h (of_session, reason) = ground (arith, h, of_session, reason)

has_refund-none :
    (session : ℕ) (es : List LedgerEntry)
    → has_refund session es ≡ false
    → All (λ (e : LedgerEntry). ¬ IsRefundOf session e) es
unfolding has_refund
has_refund-none session [] h = tt
has_refund-none session (e ∷ es) h =
    (entry-IsRefundOf session e (ground (arith, h)), has_refund-none session es (ground (arith, h)))

refundable-holds :
    (session : ℕ) (db : Db) (s : InterviewSession) (reserved : ℕ)
    → refundable session db ≡ some (s, reserved)
    → (find_session session db.sessions ≡ some s)
      × (s.reserved_minutes ≡ some reserved)
      × (has_refund session db.entries ≡ false)
unfolding refundable
refundable-holds session db s reserved = elim (Option-cases (find_session session db.sessions)) [
  | inl missing ↦ rw (missing, refundable) (λ h. absurd (ground arith))
  | inr (t, found) ↦ elim (Option-cases t.reserved_minutes) [
    | inl nothing ↦ rw (found, nothing, refundable) (λ h. absurd (ground arith))
    | inr (r, has) ↦ elim (Bool-cases (has_refund session db.entries)) [
      | inl refunded ↦ rw (found, has, refunded, refundable) (λ h. absurd (ground arith))
      | inr fresh ↦ λ h.
          let this : refundable session db ≡ some (t, r) = simp (found, has, fresh, refundable) in
          let same = some_inj (sym this ∙ h) in
          (
            found ∙ ap (λ (x : InterviewSession × ℕ). some x.0) same,
            ap (λ (x : InterviewSession × ℕ). x.0.reserved_minutes) (sym same)
                ∙ has
                ∙ ap (λ (x : InterviewSession × ℕ). some x.1) same,
            fresh,
          )
    ]
  ]
]

-- If the books are right, RefundSessionMinutes gives back nothing, or the session is there, has
-- minutes reserved and no refund in the ledger, and at least one minute of the reserved ones and
-- all the time from its start to its end stay charged.
pub refund_session_minutes_bound :
    (session : ℕ) (db : Db)
    → IsBooked db
    → (minutes_of (refund_session_minutes session db).1 ≡ 0)
      ⊎ IsFair session (minutes_of (refund_session_minutes session db).1) db
unfolding refund_session_minutes apply_credits credited
refund_session_minutes_bound session db h = elim (Option-cases (refundable session db)) [
  | inl none_found ↦ rw (none_found, refund_session_minutes) (inl refl)
  | inr ((s, reserved), found) ↦
      rw (found, refund_session_minutes)
        (fair s reserved found _ (
          minutes_of-credited (reserved - minutes_used s.started_at s.ended_at)
            (reserves session db) db.grants h.distinct))
]
  where
    fair :
        (s : InterviewSession) (reserved : ℕ)
        → refundable session db ≡ some (s, reserved)
        → (back : ℕ) → back ≤ reserved - minutes_used s.started_at s.ended_at
        → (back ≡ 0) ⊎ IsFair session back db
    fair s reserved found zero bound = inl refl
    fair s reserved found (suc n) bound =
        let held = refundable-holds session db s reserved found in
        let charged =
          minutes_used-charged s.started_at s.ended_at reserved (suc n) (omega arith) bound in
        inr (record {
          row = s;
          reserved = reserved;
          found = held.0;
          has_reserved = held.1;
          not_refunded = has_refund-none session db.entries held.2;
          one_charged = charged.0;
          time_charged = charged.1;
        })
