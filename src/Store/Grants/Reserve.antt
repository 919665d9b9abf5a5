-- ===== src/Store/Grants/Reserve.antt =====
-- internal/db/grants.sql.go: ReserveMinutes.
use sabermatic_dev.Prelude.{ℕ, List, [], ◌++◌, map, leb, if◌then◌else◌, select, sum_of}
use sabermatic_dev.Prelude.Int.{neg}
use sabermatic_dev.Store.Rows.{Db, Grant, session_reserve}
use sabermatic_dev.Store.Grants.Shares.{
  Share, distribute, sort_by_expiry, debit, debited, is_eligible, grant_share, to_entry,
}

-- The grants that a reservation may use, first to expire first.
unfoldable pub eligible : ℕ → Db → List Grant
unfolding is_eligible sort_by_expiry
eligible user db = sort_by_expiry (select (is_eligible user db.now) db.grants)

-- The rows of `distributed`: the request is dropped unless the balance covers it.
unfoldable pub reserved_shares : ℕ → ℕ → Db → List Share
unfolding eligible distribute grant_share
reserved_shares user minutes db =
    let rows = eligible user db in
    if leb minutes (sum_of (λ (g : Grant). g.remaining_minutes) rows)
    then distribute minutes (map grant_share rows)
    else []

-- ReserveMinutes; the list holds the rows that are returned.
unfoldable pub reserve_minutes : ℕ → ℕ → ℕ → Db → Db × List Share
unfolding reserved_shares debit debited to_entry
reserve_minutes user session minutes db =
    let rows = reserved_shares user minutes db in
    let done = debited rows db.grants in
    (
      record db {
        grants = map (debit rows) db.grants;
        entries =
            db.entries
            ++ map (λ s. to_entry user session session_reserve db.now (neg s.minutes) s) done;
      },
      done,
    )
