-- ===== src/Tests/Minutes.antt =====
-- The ledger's theorems at concrete data.
use sabermatic_dev.Prelude.{◌≡◌, ◌≢◌, ◌<◌, ◌+◌, ◌↔◌, ◌⊎◌, refl, true, arith, [], ◌∷◌}
use sabermatic_dev.Billing.{resolve, educator_access_level, can_access_coach, full, free_taste}
use sabermatic_dev.Billing.Policy.{educator_access_level_cases}
use sabermatic_dev.Store.Rows.{Db, active, session_refund}
use sabermatic_dev.Store.Sessions.{find_session}
use sabermatic_dev.Store.Grants.Reserve.{reserve_minutes}
use sabermatic_dev.Store.Grants.Refund.{
  refund_session_minutes, full_refund_session_minutes, is_entry_of,
}
use sabermatic_dev.Store.Grants.Balance.{get_user_usage_summary, sum_where, counts}
use sabermatic_dev.Ledger.Shares.{minutes_of}
use sabermatic_dev.Ledger.Reserve.Exact.{
  balance, reserve_minutes-IsBooked, reserve_minutes_exact, reserve_minutes_other,
  reserve_minutes_short,
}
use sabermatic_dev.Ledger.Refund.Again.{refund_session_minutes_idem}
use sabermatic_dev.Ledger.Refund.Bounds.{IsFair, refund_session_minutes_bound}
use sabermatic_dev.Ledger.Refund.RoundTrip.{reserve_full_refund}
use sabermatic_dev.Ledger.Summary.{usage_summary_splits, SummaryFor}
use sabermatic_dev.Tests.Data.{store, store-IsBooked, interview, snapshot}

reserve_minutes_exact_example :
    (balance 1 (reserve_minutes 1 5 30 (store [])).0 + 30 ≡ balance 1 (store []))
    × (minutes_of (reserve_minutes 1 5 30 (store [])).1 ≡ 30)
unfolding sum_where counts
reserve_minutes_exact_example =
    reserve_minutes_exact 1 5 30 (store []) (store-IsBooked []) (omega arith)

reserve_minutes_other_example :
    balance 3 (reserve_minutes 1 5 30 (store [])).0 ≡ balance 3 (store [])
reserve_minutes_other_example =
    reserve_minutes_other 1 5 30 (store []) (store-IsBooked []) 3 (λ e. absurd (omega arith))

reserve_minutes_short_example : reserve_minutes 1 5 90 (store []) ≡ (store [], [])
unfolding sum_where counts
reserve_minutes_short_example = reserve_minutes_short 1 5 90 (store []) (omega arith)

refund_session_minutes_idem_example :
    refund_session_minutes 5 (refund_session_minutes 5 (store (interview active ∷ []))).0
    ≡ ((refund_session_minutes 5 (store (interview active ∷ []))).0, [])
refund_session_minutes_idem_example = refund_session_minutes_idem 5 (store (interview active ∷ []))

-- The session's reservation is booked.
abbrev reserved_store : Db
reserved_store = (reserve_minutes 1 5 30 (store (interview active ∷ []))).0

refund_session_minutes_bound_example :
    (minutes_of (refund_session_minutes 5 reserved_store).1 ≡ 0)
    ⊎ IsFair 5 (minutes_of (refund_session_minutes 5 reserved_store).1) reserved_store
refund_session_minutes_bound_example = refund_session_minutes_bound 5 reserved_store (
    reserve_minutes-IsBooked 1 5 30 (store (interview active ∷ []))
      (store-IsBooked (interview active ∷ [])))

reserve_full_refund_example :
    (full_refund_session_minutes session_refund 5
      (reserve_minutes 1 5 30 (store (interview active ∷ []))).0).0.grants
    ≡ (store []).grants
unfolding find_session is_entry_of sum_where counts
reserve_full_refund_example =
    reserve_full_refund 1 5 30 (store (interview active ∷ []))
      (store-IsBooked (interview active ∷ [])) (refl, tt) (omega arith) session_refund
      (interview active) refl refl

usage_summary_splits_example : SummaryFor 1 (store []) (get_user_usage_summary 1 (store []))
usage_summary_splits_example = usage_summary_splits 1 (store [])

educator_access_level_cases_example :
    ((0 < snapshot.paid_balance) ↔ (educator_access_level (resolve snapshot) ≡ full))
    × ((can_access_coach (resolve snapshot) ≡ true)
        ↔ (educator_access_level (resolve snapshot) ≡ full))
    × ((educator_access_level (resolve snapshot) ≡ free_taste) ↔ (
        (snapshot.paid_balance ≡ 0)
        × (snapshot.free_full_educators_used ≡ 0)
        × (snapshot.plan ≢ "pro")))
educator_access_level_cases_example = educator_access_level_cases snapshot
