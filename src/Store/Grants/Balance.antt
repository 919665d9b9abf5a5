-- ===== src/Store/Grants/Balance.antt =====
-- internal/db/grants.sql.go: the queries that read balances.
-- SUM(…)::int fails beyond the 32-bit integers; `none` is a failed query, or no row.
use sabermatic_dev.Prelude.{
  ℕ, ◌+◌, ◌^◌, Bool, true, false, not, ◌&&◌, Option, none, some, List, [], ◌∷◌, ltb, ◌==◌,
  if◌then◌else◌, select,
}
use sabermatic_dev.Store.Rows.{Db, Grant, Source, User, free_grant}
use sabermatic_dev.Store.Grants.Shares.{sort_by_expiry, is_eligible, is_live}
use sabermatic_dev.Billing.{BillingSnapshot}

unfoldable pub find_user : ℕ → List User → Option User
find_user id [] = none
find_user id (u ∷ us) = if u.id == id then some u else find_user id us

unfoldable pub is_free : Source → Bool
is_free free_grant = true
is_free _ = false

-- The sum of the remaining minutes of the rows that pass a filter, 0 for no rows.
unfoldable pub sum_where : (Grant → Bool) → List Grant → ℕ
sum_where keep [] = 0
sum_where keep (g ∷ gs) = (if keep g then g.remaining_minutes else 0) + sum_where keep gs

unfoldable pub int4 : ℕ → Option ℕ
int4 n = if ltb n (2 ^ 31) then some n else none

-- `user_id = $1 AND remaining_minutes > 0 AND (expires_at IS NULL OR expires_at > NOW())`
unfoldable pub counts : ℕ → ℕ → Grant → Bool
unfolding is_live
counts user now g = (g.user == user && ltb 0 g.remaining_minutes) && is_live now g

unfoldable pub counts_free : ℕ → ℕ → Grant → Bool
unfolding counts is_free
counts_free user now g = counts user now g && is_free g.source

unfoldable pub counts_paid : ℕ → ℕ → Grant → Bool
unfolding counts is_free
counts_paid user now g = counts user now g && not (is_free g.source)

unfoldable pub both : Option ℕ → Option ℕ → User → Option BillingSnapshot
both (some total) (some paid) u = some (record {
  plan = u.plan;
  free_full_educators_used = u.free_full_educators_used;
  total_balance = total;
  paid_balance = paid;
})
both _ _ u = none

unfoldable pub get_billing_snapshot : ℕ → Db → Option BillingSnapshot
unfolding find_user counts counts_paid sum_where int4 both
get_billing_snapshot user db = elim (find_user user db.users) [
  | none ↦ none
  | some u ↦
      both (int4 (sum_where (counts user db.now) db.grants))
        (int4 (sum_where (counts_paid user db.now) db.grants)) u
]

pub record UsageSummaryRow : Type 0 where
  pub total_balance : ℕ
  pub free_balance : ℕ
  pub paid_balance : ℕ

unfoldable pub all_three : Option ℕ → Option ℕ → Option ℕ → Option UsageSummaryRow
all_three (some total) (some free) (some paid) =
    some (record { total_balance = total; free_balance = free; paid_balance = paid })
all_three _ _ _ = none

unfoldable pub get_user_usage_summary : ℕ → Db → Option UsageSummaryRow
unfolding counts counts_free counts_paid sum_where int4 all_three
get_user_usage_summary user db =
    all_three (int4 (sum_where (counts user db.now) db.grants))
      (int4 (sum_where (counts_free user db.now) db.grants))
      (int4 (sum_where (counts_paid user db.now) db.grants))

unfoldable pub list_active_grants : ℕ → Db → List Grant
unfolding is_eligible sort_by_expiry
list_active_grants user db = sort_by_expiry (select (is_eligible user db.now) db.grants)
