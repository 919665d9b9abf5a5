-- ===== src/Ledger/Reserve/Sums.antt =====
-- Sums over the grants of a user, and the minutes that the rows of `distributed` take from them.
use sabermatic_dev.Prelude.{
  ℕ, ◌+◌, ◌≤◌, ◌≡◌, ◌≢◌, refl, ◌⊎◌, inl, inr, Bool, true, ◌&&◌, List, [], ◌∷◌, map, arith, ◌==◌,
  if◌then◌else◌, All, All-imp, sum_of, Bool-cases, select, ◌∙◌, ==_iff,
}
use sabermatic_dev.Store.Rows.{Db, Grant}
use sabermatic_dev.Store.Grants.Shares.{
  Share, share_of, updated, debit, is_live, is_eligible, insert_by_expiry, sort_by_expiry,
}
use sabermatic_dev.Store.Grants.Reserve.{eligible}
use sabermatic_dev.Store.Grants.Balance.{sum_where, counts}
use sabermatic_dev.Ledger.Shares.{total_for, Distinct, minutes_of}
use sabermatic_dev.Ledger.Reserve.Rows.{DistinctShares}

-- The sum of `f` over the grants that pass a test.
abbrev pub sum_if : (Grant → Bool) → (Grant → ℕ) → List Grant → ℕ
sum_if w f [] = 0
sum_if w f (g ∷ gs) = (if w g then f g else 0) + sum_if w f gs

-- A grant of this id stands in the table, and passes the test.
abbrev pub Occurs : (Grant → Bool) → ℕ → List Grant → Type 0
Occurs w id [] = ⊥
Occurs w id (g ∷ gs) = ((g.id ≡ id) × (w g ≡ true)) ⊎ Occurs w id gs

sum_if_absent :
    (w : Grant → Bool) (id n : ℕ) (gs : List Grant)
    → All (λ (h : Grant). h.id ≢ id) gs
    → sum_if w (λ g. if id == g.id then n else 0) gs ≡ 0
sum_if_absent w id n [] h = refl
sum_if_absent w id n (g ∷ gs) h = ground (arith, sum_if_absent w id n gs h.1)

sum_if_once :
    (w : Grant → Bool) (id n : ℕ) (gs : List Grant)
    → Distinct gs
    → Occurs w id gs
    → sum_if w (λ g. if id == g.id then n else 0) gs ≡ n
sum_if_once w id n [] d o = absurd o
sum_if_once w id n (g ∷ gs) d (inl here) =
    ground (arith, sum_if_absent w id n gs (All-imp _ _ gs (λ h p e. p (here_is h e)) d.0))
  where
    here_is : (h : Grant) → h.id ≡ id → h.id ≡ g.id
    here_is h e = cc (here.0)
sum_if_once w id n (g ∷ gs) d (inr later) =
    ground (arith, sum_if_once w id n gs d.1 later, not_here gs d.0 later)
  where
    not_here : (hs : List Grant) → All (λ (h : Grant). h.id ≢ g.id) hs → Occurs w id hs → g.id ≢ id
    not_here [] a o e = absurd o
    not_here (h ∷ hs) a (inl p) e = a.0 (cc (p.0))
    not_here (h ∷ hs) a (inr q) e = not_here hs a.1 q e

sum_if-add :
    (w : Grant → Bool) (f f' : Grant → ℕ) (gs : List Grant)
    → sum_if w (λ g. f g + f' g) gs ≡ sum_if w f gs + sum_if w f' gs
sum_if-add w f f' [] = omega arith
sum_if-add w f f' (g ∷ gs) = ground (arith, sum_if-add w f f' gs)

sum_if-total_for :
    (w : Grant → Bool) (rows : List Share) (gs : List Grant)
    → Distinct gs
    → All (λ (s : Share). Occurs w s.grant gs) rows
    → sum_if w (λ g. total_for g.id rows) gs ≡ minutes_of rows
sum_if-total_for w [] gs d h = none_at gs
  where
    none_at : (hs : List Grant) → sum_if w (λ g. 0) hs ≡ 0
    none_at [] = refl
    none_at (g ∷ hs) = ground (arith, none_at hs)
sum_if-total_for w (s ∷ rest) gs d h = omega (
  arith,
  sum_if-add w (λ g. if s.grant == g.id then s.minutes else 0) (λ g. total_for g.id rest) gs,
  sum_if_once w s.grant s.minutes gs d h.0,
  sum_if-total_for w rest gs d h.1,
)

total_for_absent :
    (id : ℕ) (rows : List Share) → All (λ (t : Share). t.grant ≢ id) rows → total_for id rows ≡ 0
total_for_absent id [] h = refl
total_for_absent id (s ∷ rest) h = ground (arith, total_for_absent id rest h.1)

pub share_of-eq-total_for :
    (id : ℕ) (rows : List Share) → DistinctShares rows → share_of id rows ≡ total_for id rows
unfolding share_of
share_of-eq-total_for id [] d = refl
share_of-eq-total_for id (s ∷ rest) d = elim (Bool-cases (s.grant == id)) [
  | inl same ↦ ground (
    arith,
    share_of-eq-total_for id rest d.1,
    total_for_absent id rest
        (All-imp _ _ rest (λ t p e. p (omega (arith, (==_iff s.grant id).0 same))) d.0),
  )
  | inr other ↦ ground (arith, share_of-eq-total_for id rest d.1)
]

sum_if_ext :
    (w : Grant → Bool) (f f' : Grant → ℕ) (gs : List Grant)
    → ((g : Grant) → f g ≡ f' g)
    → sum_if w f gs ≡ sum_if w f' gs
sum_if_ext w f f' [] h = refl
sum_if_ext w f f' (g ∷ gs) h = ground (arith, h g, sum_if_ext w f f' gs h)

-- The grants of the table lose, together, what the rows hold.
pub sum_if-share_of :
    (w : Grant → Bool) (rows : List Share) (gs : List Grant)
    → Distinct gs
    → DistinctShares rows
    → All (λ (s : Share). Occurs w s.grant gs) rows
    → sum_if w (λ g. share_of g.id rows) gs ≡ minutes_of rows
sum_if-share_of w rows gs d e h =
    sum_if_ext w _ _ gs (λ g. share_of-eq-total_for g.id rows e) ∙ sum_if-total_for w rows gs d h

pub minutes_of-updated :
    (delta : Grant → ℕ) (gs : List Grant)
    → minutes_of (updated delta gs) ≡ sum_if (λ g. true) delta gs
unfolding updated
minutes_of-updated delta [] = refl
minutes_of-updated delta (g ∷ gs) = ground (arith, minutes_of-updated delta gs)

-- The unexpired grants of a user, emptied ones included.
unfoldable pub is_of : ℕ → ℕ → Grant → Bool
is_of user now g = g.user == user && is_live now g

pub sum_where-debit :
    (user now : ℕ) (rows : List Share) (gs : List Grant)
    → All (λ (g : Grant). share_of g.id rows ≤ g.remaining_minutes) gs
    → sum_where (counts user now) (map (debit rows) gs)
        + sum_if (is_of user now) (λ g. share_of g.id rows) gs
      ≡ sum_where (counts user now) gs
unfolding sum_where counts is_of debit is_live
sum_where-debit user now rows [] h = refl
sum_where-debit user now rows (g ∷ gs) h = ground (arith, sum_where-debit user now rows gs h.1)

sum_of-insert :
    (g : Grant) (gs : List Grant)
    → sum_of (λ (h : Grant). h.remaining_minutes) (insert_by_expiry g gs)
      ≡ g.remaining_minutes + sum_of (λ (h : Grant). h.remaining_minutes) gs
unfolding insert_by_expiry
sum_of-insert g [] = refl
sum_of-insert g (k ∷ ks) = ground (arith, sum_of-insert g ks)

sum_of-sort :
    (gs : List Grant)
    → sum_of (λ (h : Grant). h.remaining_minutes) (sort_by_expiry gs)
      ≡ sum_of (λ (h : Grant). h.remaining_minutes) gs
unfolding sort_by_expiry
sum_of-sort [] = refl
sum_of-sort (g ∷ gs) = omega (arith, sum_of-insert g (sort_by_expiry gs), sum_of-sort gs)

sum_of-select :
    (user now : ℕ) (gs : List Grant)
    → sum_of (λ (h : Grant). h.remaining_minutes) (select (is_eligible user now) gs)
      ≡ sum_where (counts user now) gs
unfolding sum_where counts is_eligible is_live
sum_of-select user now [] = refl
sum_of-select user now (g ∷ gs) = ground (arith, sum_of-select user now gs)

-- `balance_check` of a reservation and the balance of a snapshot are one number.
pub sum_of-eligible :
    (user : ℕ) (db : Db)
    → sum_of (λ (h : Grant). h.remaining_minutes) (eligible user db)
      ≡ sum_where (counts user db.now) db.grants
unfolding eligible
sum_of-eligible user db =
    sum_of-sort (select (is_eligible user db.now) db.grants) ∙ sum_of-select user db.now db.grants
