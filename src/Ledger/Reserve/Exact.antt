-- ===== src/Ledger/Reserve/Exact.antt =====
-- ReserveMinutes against its contract: all or nothing, exact, and in balance with the ledger.
use mathlib.Core.List.{append-nil}
use sabermatic_dev.Prelude.{
  ℕ, ◌+◌, ◌≤◌, ◌<◌, ◌≡◌, ◌≢◌, refl, inl, inr, Bool, true, List, [], ◌∷◌, map, arith, leb,
  if◌then◌else◌, All, All-imp, sum_of, Bool-cases, select, ◌∙◌,
}
use sabermatic_dev.Store.Rows.{Db, Grant, session_reserve}
use sabermatic_dev.Store.Grants.Shares.{Share, share_of, debit, debited, is_eligible, grant_share}
use sabermatic_dev.Store.Grants.Reserve.{eligible, reserve_minutes, reserved_shares}
use sabermatic_dev.Store.Grants.Balance.{sum_where, counts}
use sabermatic_dev.Ledger.Shares.{minutes_of, minutes_of-distribute}
use sabermatic_dev.Ledger.Books.{IsBooked, debit-IsBooked}
use sabermatic_dev.Ledger.Reserve.Rows.{
  All-reserved_shares, DistinctShares-reserved_shares, reserved_shares_fit,
}
use sabermatic_dev.Ledger.Reserve.Sums.{
  sum_if, Occurs, sum_if-share_of, minutes_of-updated, is_of, sum_where-debit, sum_of-eligible,
}

-- The balance that GetBillingSnapshot shows.
abbrev pub balance : ℕ → Db → ℕ
balance user db = sum_where (counts user db.now) db.grants

Occurs-select :
    (w keep : Grant → Bool) (gs : List Grant)
    → ((g : Grant) → keep g ≡ true → w g ≡ true)
    → All (λ (g : Grant). Occurs w g.id gs) (select keep gs)
Occurs-select w keep [] imp = tt
Occurs-select w keep (g ∷ gs) imp =
    let later =
      All-imp _ (λ (h : Grant). Occurs w h.id (g ∷ gs)) (select keep gs) (λ h o. inr o)
        (Occurs-select w keep gs imp) in
    elim (Bool-cases (keep g)) [
      | inl kept ↦ rw kept (inl (refl, imp g kept), later)
      | inr dropped ↦ rw dropped later
    ]

Occurs-reserved_shares :
    (w : Grant → Bool) (user minutes : ℕ) (db : Db)
    → ((g : Grant) → is_eligible user db.now g ≡ true → w g ≡ true)
    → All (λ (s : Share). Occurs w s.grant db.grants) (reserved_shares user minutes db)
unfolding grant_share
Occurs-reserved_shares w user minutes db imp =
    All-reserved_shares (λ g. Occurs w g.id db.grants) _ user minutes db (λ g o. o) (λ s n o. o)
      (Occurs-select w (is_eligible user db.now) db.grants imp)

minutes_of-grant_share :
    (gs : List Grant)
    → minutes_of (map grant_share gs) ≡ sum_of (λ (g : Grant). g.remaining_minutes) gs
unfolding grant_share
minutes_of-grant_share [] = refl
minutes_of-grant_share (g ∷ gs) = omega (arith, minutes_of-grant_share gs)

-- The rows hold the minutes that were asked for, if the balance covers them, and else nothing.
minutes_of-reserved_shares :
    (user minutes : ℕ) (db : Db)
    → minutes_of (reserved_shares user minutes db)
      ≡ (if leb minutes (balance user db) then minutes else 0)
unfolding reserved_shares
minutes_of-reserved_shares user minutes db = ground (
  arith,
  sum_of-eligible user db,
  minutes_of-grant_share (eligible user db),
  minutes_of-distribute minutes (map grant_share (eligible user db)),
)

reserved_shares_short :
    (user minutes : ℕ) (db : Db) → balance user db < minutes → reserved_shares user minutes db ≡ []
unfolding reserved_shares
reserved_shares_short user minutes db h = ground (arith, sum_of-eligible user db)

debit_none : (gs : List Grant) → map (debit []) gs ≡ gs
unfolding debit share_of
debit_none [] = refl
debit_none (g ∷ gs) = ground (arith, debit_none gs)

updated_none : (gs : List Grant) → debited [] gs ≡ []
unfolding debited
updated_none [] = refl
updated_none (g ∷ gs) = ground (arith, updated_none gs)

two_users :
    (user other now : ℕ) (f : Grant → ℕ) (gs : List Grant)
    → user ≢ other
    → sum_if (is_of user now) f gs + sum_if (is_of other now) f gs ≤ sum_if (λ g. true) f gs
unfolding is_of
two_users user other now f [] ne = omega arith
two_users user other now f (g ∷ gs) ne = ground (arith, two_users user other now f gs ne)

-- `user` owns every row.
is_eligible-is_of :
    (user now : ℕ) (g : Grant) → is_eligible user now g ≡ true → is_of user now g ≡ true
unfolding is_eligible is_of
is_eligible-is_of user now g h = ground arith

module _ (user session minutes : ℕ) (db : Db) (booked : IsBooked db) where
  -- If the books are right, a reservation keeps them right.
  pub reserve_minutes-IsBooked : IsBooked (reserve_minutes user session minutes db).0
  unfolding reserve_minutes
  reserve_minutes-IsBooked =
      debit-IsBooked db user session session_reserve (reserved_shares user minutes db) booked
        (reserved_shares_fit user minutes db booked.distinct)

  taken :
      (w : Grant → Bool)
      → ((g : Grant) → is_eligible user db.now g ≡ true → w g ≡ true)
      → sum_if w (λ g. share_of g.id (reserved_shares user minutes db)) db.grants
        ≡ (if leb minutes (balance user db) then minutes else 0)
  taken w imp =
      sum_if-share_of w (reserved_shares user minutes db) db.grants booked.distinct
        (DistinctShares-reserved_shares user minutes db booked.distinct)
        (Occurs-reserved_shares w user minutes db imp)
      ∙ minutes_of-reserved_shares user minutes db

  -- If the books are right and the user's balance covers the minutes, the balance falls by exactly
  -- that many, and the rows that are returned hold as many.
  pub reserve_minutes_exact :
      minutes ≤ balance user db
      → let (db', rows) = reserve_minutes user session minutes db in
        (balance user db' + minutes ≡ balance user db) × (minutes_of rows ≡ minutes)
  unfolding reserve_minutes debited
  reserve_minutes_exact enough =
      let rows = reserved_shares user minutes db in
      (
        ground (
          arith,
          taken (is_of user db.now) (is_eligible-is_of user db.now),
          sum_where-debit user db.now rows db.grants
              (reserved_shares_fit user minutes db booked.distinct),
        ),
        ground (
          arith,
          taken (λ g. true) (λ g h. refl),
          minutes_of-updated (λ g. share_of g.id rows) db.grants,
        ),
      )

  -- If the books are right, a reservation for one user leaves the balance of every other user.
  pub reserve_minutes_other :
      (other : ℕ)
      → user ≢ other
      → balance other (reserve_minutes user session minutes db).0 ≡ balance other db
  unfolding reserve_minutes
  reserve_minutes_other other ne =
      let rows = reserved_shares user minutes db in
      ground (
        arith,
        taken (is_of user db.now) (is_eligible-is_of user db.now),
        taken (λ g. true) (λ g h. refl),
        sum_where-debit other db.now rows db.grants
            (reserved_shares_fit user minutes db booked.distinct),
        two_users user other db.now (λ g. share_of g.id rows) db.grants ne,
      )

-- If the user's balance is below the minutes, nothing is written and no row is returned.
pub reserve_minutes_short :
    (user session minutes : ℕ) (db : Db)
    → balance user db < minutes
    → reserve_minutes user session minutes db ≡ (db, [])
unfolding reserve_minutes
reserve_minutes_short user session minutes db h =
    rw (reserved_shares_short user minutes db h, updated_none, debit_none, append-nil)
