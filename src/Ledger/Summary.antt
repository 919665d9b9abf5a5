-- ===== src/Ledger/Summary.antt =====
-- The two queries that read balances agree, and a balance splits into free and paid minutes.
use sabermatic_dev.Prelude.{ℕ, ◌+◌, ◌^◌, ◌≤◌, ◌≡◌, refl, List, [], ◌∷◌, arith, Option, some, none}
use sabermatic_dev.Store.Rows.{Db, Grant, User}
use sabermatic_dev.Billing.{BillingSnapshot}
use sabermatic_dev.Store.Grants.Balance.{
  sum_where, counts, counts_free, counts_paid, get_billing_snapshot, get_user_usage_summary,
  find_user, UsageSummaryRow,
}

sum_where-split :
    (user now : ℕ) (gs : List Grant)
    → sum_where (counts user now) gs
      ≡ sum_where (counts_free user now) gs + sum_where (counts_paid user now) gs
unfolding sum_where counts_free counts_paid
sum_where-split user now [] = refl
sum_where-split user now (g ∷ gs) = ground (arith, sum_where-split user now gs)

abbrev SameBalances : Option BillingSnapshot → Option User → UsageSummaryRow → Type 0
SameBalances none u r = u ≡ none
SameBalances (some bs) u r =
    (bs.total_balance ≡ r.total_balance) × (bs.paid_balance ≡ r.paid_balance)

abbrev pub SummaryFor : ℕ → Db → Option UsageSummaryRow → Type 0
SummaryFor user db none = 2 ^ 31 ≤ sum_where (counts user db.now) db.grants
SummaryFor user db (some r) =
    (r.total_balance ≡ r.free_balance + r.paid_balance)
    × SameBalances (get_billing_snapshot user db) (find_user user db.users) r

-- The summary of a user's balances is missing only if the total passes 31 bits; otherwise its
-- total is the free and the paid minutes together, and the billing snapshot, which is missing
-- only for a user who is not in the table, shows the same total and the same paid balance.
pub usage_summary_splits :
    (user : ℕ) (db : Db) → SummaryFor user db (get_user_usage_summary user db)
unfolding get_user_usage_summary get_billing_snapshot
usage_summary_splits user db = ground (arith, sum_where-split user db.now db.grants)
