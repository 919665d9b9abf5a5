-- ===== src/Ledger/Shares.antt =====
-- The recursive CTE `distributed` and the rows that an UPDATE returns: how the minutes add up.
use sabermatic_dev.Prelude.{
  ℕ, ◌+◌, ◌-◌, min, ◌≡◌, ◌≢◌, refl, List, [], ◌∷◌, arith, ◌==◌, if◌then◌else◌, All, sum_of,
}
use sabermatic_dev.Store.Rows.{Grant}
use sabermatic_dev.Store.Grants.Shares.{Share, distribute, updated}

-- The minutes that the rows hold for one grant.
abbrev pub total_for : ℕ → List Share → ℕ
total_for id [] = 0
total_for id (s ∷ rest) = (if s.grant == id then s.minutes else 0) + total_for id rest

abbrev pub minutes_of : List Share → ℕ
minutes_of = sum_of (λ (s : Share). s.minutes)

-- No two grants have one id.
abbrev pub Distinct : List Grant → Type 0
Distinct [] = Unit
Distinct (g ∷ gs) = All (λ (h : Grant). h.id ≢ g.id) gs × Distinct gs

-- The rows together hold what was asked for, or all that there is.
pub minutes_of-distribute :
    (total : ℕ) (rows : List Share)
    → minutes_of (distribute total rows) ≡ min total (minutes_of rows)
unfolding distribute
minutes_of-distribute total [] = omega arith
minutes_of-distribute total (s ∷ rest) =
    ground (arith, minutes_of-distribute (total - min s.minutes total) rest)

total_for-updated_absent :
    (delta : Grant → ℕ) (id : ℕ) (gs : List Grant)
    → All (λ (h : Grant). h.id ≢ id) gs
    → total_for id (updated delta gs) ≡ 0
unfolding updated
total_for-updated_absent delta id [] h = refl
total_for-updated_absent delta id (g ∷ gs) h =
    ground (arith, total_for-updated_absent delta id gs h.1)

-- The rows that are returned hold exactly the change of each grant.
pub total_for-updated :
    (delta : Grant → ℕ) (gs : List Grant)
    → Distinct gs
    → All (λ (g : Grant). total_for g.id (updated delta gs) ≡ delta g) gs
unfolding updated
total_for-updated delta [] h = tt
total_for-updated delta (g ∷ gs) h = (
  ground (arith, total_for-updated_absent delta g.id gs h.0),
  both gs h.0 (total_for-updated delta gs h.1),
)
  where
    both :
        (hs : List Grant)
        → All (λ (h : Grant). h.id ≢ g.id) hs
        → All (λ (h : Grant). total_for h.id (updated delta gs) ≡ delta h) hs
        → All (λ (h : Grant). total_for h.id (updated delta (g ∷ gs)) ≡ delta h) hs
    both [] a b = tt
    both (k ∷ ks) a b = (ground arith, both ks a.1 b.1)
