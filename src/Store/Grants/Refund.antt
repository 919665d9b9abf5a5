-- ===== src/Store/Grants/Refund.antt =====
-- internal/db/grants.sql.go: RefundSessionMinutes and FullRefundSessionMinutes.
use sabermatic_dev.Prelude.{
  ℕ, ◌+◌, ◌-◌, ◌/◌, max, Bool, true, false, ◌&&◌, ◌||◌, Option, none, some, List, [], ◌∷◌, ◌++◌,
  map, ◌==◌, if◌then◌else◌, select,
}
use sabermatic_dev.Prelude.Int.{pos}
use sabermatic_dev.Store.Rows.{
  Db, LedgerEntry, Reason, InterviewSession, session_reserve, session_refund,
}
use sabermatic_dev.Store.Grants.Shares.{
  Share, distribute, sort_by_newest, credit, credited, reserve_share, to_entry,
}
use sabermatic_dev.Store.Sessions.{find_session}

unfoldable pub is_entry_of : ℕ → LedgerEntry → Bool
is_entry_of session e = elim e.session [ none ↦ false | some s ↦ s == session ]

unfoldable pub is_refund : Reason → Bool
is_refund session_refund = true
is_refund _ = false

unfoldable pub is_reserve : Reason → Bool
is_reserve session_reserve = true
is_reserve _ = false

-- EXISTS (… reason = 'session_refund')
unfoldable pub has_refund : ℕ → List LedgerEntry → Bool
unfolding is_entry_of is_refund
has_refund session [] = false
has_refund session (e ∷ es) = (is_entry_of session e && is_refund e.reason) || has_refund session es

-- The CTE `reserves`, newest first.
unfoldable pub reserves : ℕ → Db → List Share
unfolding is_entry_of is_reserve sort_by_newest reserve_share
reserves session db =
    map reserve_share
      (sort_by_newest (select (λ e. is_entry_of session e && is_reserve e.reason) db.entries))

-- `apply_credits` and the INSERT behind it.
unfoldable pub apply_credits : ℕ → ℕ → Reason → List Share → Db → Db × List Share
unfolding credit credited to_entry
apply_credits user session reason rows db =
    let done = credited rows db.grants in
    (
      record db {
        grants = map (credit rows) db.grants;
        entries =
            db.entries ++ map (λ s. to_entry user session reason db.now (pos s.minutes) s) done;
      },
      done,
    )

-- The CTE `sess`: the session with its reserved minutes, unless it has been refunded.
unfoldable pub refundable : ℕ → Db → Option (InterviewSession × ℕ)
unfolding find_session has_refund
refundable session db = elim (find_session session db.sessions) [
  | none ↦ none
  | some s ↦ elim s.reserved_minutes [
    | none ↦ none
    | some r ↦ if has_refund session db.entries then none else some (s, r)
  ]
]

-- GREATEST(1, CEIL(seconds / 60)); a null end counts as 1 minute.
unfoldable pub minutes_used : ℕ → Option ℕ → ℕ
minutes_used started none = 1
minutes_used started (some ended) = max 1 ((ended - started + 59999999) / 60000000)

unfoldable pub refund_session_minutes : ℕ → Db → Db × List Share
refund_session_minutes session db = elim (refundable session db) [
  | none ↦ (db, [])
  | some (s, reserved) ↦
      apply_credits s.user session session_refund
        (distribute (reserved - minutes_used s.started_at s.ended_at) (reserves session db)) db
]

unfoldable pub full_refund_session_minutes : Reason → ℕ → Db → Db × List Share
full_refund_session_minutes reason session db = elim (refundable session db) [
  | none ↦ (db, [])
  | some (s, reserved) ↦
      apply_credits s.user session reason (distribute reserved (reserves session db)) db
]
