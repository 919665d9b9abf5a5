-- ===== src/Ledger/Reserve/Rows.antt =====
-- The rows of `distributed` belong to grants of the table: each grant at most once, and never
-- more minutes than the grant has.
use sabermatic_dev.Prelude.{
  ℕ, ◌-◌, ◌≤◌, min, ◌≡◌, ◌≢◌, sym, inl, inr, Bool, List, [], ◌∷◌, map, arith, ltb, leb, All,
  All-imp, sum_of, Bool-cases, select,
}
use sabermatic_dev.Store.Rows.{Db, Grant}
use sabermatic_dev.Store.Grants.Shares.{
  Share, distribute, share_of, grant_share, insert_by_expiry, sort_by_expiry, is_eligible,
  expires_first,
}
use sabermatic_dev.Store.Grants.Reserve.{eligible, reserved_shares}
use sabermatic_dev.Ledger.Shares.{Distinct}

module _ (P : Grant → Type 0) where
  pub All-select : (keep : Grant → Bool) (gs : List Grant) → All P gs → All P (select keep gs)
  All-select keep [] h = tt
  All-select keep (g ∷ gs) h = elim (Bool-cases (keep g)) [
    | inl yes_keep ↦ rw yes_keep (h.0, All-select keep gs h.1)
    | inr drop_it ↦ rw drop_it (All-select keep gs h.1)
  ]

  All-insert : (g : Grant) (gs : List Grant) → P g → All P gs → All P (insert_by_expiry g gs)
  unfolding insert_by_expiry
  All-insert g [] p h = (p, tt)
  All-insert g (k ∷ ks) p h = elim (Bool-cases (expires_first g.expires_at k.expires_at)) [
    | inl before ↦ rw before (p, h)
    | inr after ↦ rw after (h.0, All-insert g ks p h.1)
  ]

  pub All-sort : (gs : List Grant) → All P gs → All P (sort_by_expiry gs)
  unfolding sort_by_expiry
  All-sort [] h = tt
  All-sort (g ∷ gs) h = All-insert g (sort_by_expiry gs) h.0 (All-sort gs h.1)

Distinct-select : (keep : Grant → Bool) (gs : List Grant) → Distinct gs → Distinct (select keep gs)
Distinct-select keep [] h = tt
Distinct-select keep (g ∷ gs) h = elim (Bool-cases (keep g)) [
  | inl yes_keep ↦ rw yes_keep (All-select _ keep gs h.0, Distinct-select keep gs h.1)
  | inr drop_it ↦ rw drop_it (Distinct-select keep gs h.1)
]

Distinct-insert :
    (g : Grant) (gs : List Grant)
    → All (λ (h : Grant). h.id ≢ g.id) gs
    → Distinct gs
    → Distinct (insert_by_expiry g gs)
unfolding insert_by_expiry
Distinct-insert g [] n h = (tt, tt)
Distinct-insert g (k ∷ ks) n h = elim (Bool-cases (expires_first g.expires_at k.expires_at)) [
  | inl before ↦ rw before (n, h)
  | inr after ↦
      rw after
        (All-insert (λ x. x.id ≢ k.id) g ks (λ e. n.0 (sym e)) h.0, Distinct-insert g ks n.1 h.1)
]

Distinct-sort : (gs : List Grant) → Distinct gs → Distinct (sort_by_expiry gs)
unfolding sort_by_expiry
Distinct-sort [] h = tt
Distinct-sort (g ∷ gs) h =
    Distinct-insert g (sort_by_expiry gs) (All-sort _ gs h.0) (Distinct-sort gs h.1)

abbrev pub DistinctShares : List Share → Type 0
DistinctShares [] = Unit
DistinctShares (s ∷ rest) = All (λ (t : Share). t.grant ≢ s.grant) rest × DistinctShares rest

-- What holds of the shares whatever their minutes are holds of what `distribute` makes of them.
module _ (P : Share → Type 0)
    (fewer : (s : Share) (n : ℕ)
      → P s
      → P (record { grant = s.grant; minutes = min s.minutes n })) where
  pub All-distribute : (n : ℕ) (rows : List Share) → All P rows → All P (distribute n rows)
  unfolding distribute
  All-distribute n [] h = tt
  All-distribute n (s ∷ rest) h = (
    fewer s n h.0,
    elim (Bool-cases (ltb 0 (n - min s.minutes n))) [
      | inl more ↦ rw more (All-distribute (n - min s.minutes n) rest h.1)
      | inr done ↦ rw done tt
    ],
  )

DistinctShares-distribute :
    (n : ℕ) (rows : List Share) → DistinctShares rows → DistinctShares (distribute n rows)
unfolding distribute
DistinctShares-distribute n [] h = tt
DistinctShares-distribute n (s ∷ rest) h = elim (Bool-cases (ltb 0 (n - min s.minutes n))) [
  | inl more ↦ rw more (
    All-distribute (λ t. t.grant ≢ s.grant) (λ t k p. p) (n - min s.minutes n) rest h.0,
    DistinctShares-distribute (n - min s.minutes n) rest h.1,
  )
  | inr done ↦ rw done (tt, tt)
]

ne-shares :
    (g : Grant) (gs : List Grant)
    → All (λ (h : Grant). h.id ≢ g.id) gs
    → All (λ (t : Share). t.grant ≢ g.id) (map grant_share gs)
unfolding grant_share
ne-shares g [] h = tt
ne-shares g (k ∷ ks) h = (h.0, ne-shares g ks h.1)

DistinctShares-map : (gs : List Grant) → Distinct gs → DistinctShares (map grant_share gs)
unfolding grant_share
DistinctShares-map [] h = tt
DistinctShares-map (g ∷ gs) h = (ne-shares g gs h.0, DistinctShares-map gs h.1)

pub All-grant_share :
    (P : Grant → Type 0) (Q : Share → Type 0) (gs : List Grant)
    → ((g : Grant) → P g → Q (grant_share g))
    → All P gs
    → All Q (map grant_share gs)
All-grant_share P Q [] step h = tt
All-grant_share P Q (g ∷ gs) step h = (step g h.0, All-grant_share P Q gs step h.1)

-- What holds of every grant of the table holds of every row.
pub All-reserved_shares :
    (P : Grant → Type 0) (Q : Share → Type 0) (user minutes : ℕ) (db : Db)
    → ((g : Grant) → P g → Q (grant_share g))
    → ((s : Share) (n : ℕ) → Q s → Q (record { grant = s.grant; minutes = min s.minutes n }))
    → All P (select (is_eligible user db.now) db.grants)
    → All Q (reserved_shares user minutes db)
unfolding reserved_shares eligible
All-reserved_shares P Q user minutes db step fewer h =
    let rows = sort_by_expiry (select (is_eligible user db.now) db.grants) in
    elim (Bool-cases (leb minutes (sum_of (λ (g : Grant). g.remaining_minutes) rows))) [
      | inl enough ↦ rw enough (
          All-distribute Q fewer minutes (map grant_share rows) (
            All-grant_share P Q rows step
              (All-sort P (select (is_eligible user db.now) db.grants) h)))
      | inr short ↦ rw short tt
    ]

pub DistinctShares-reserved_shares :
    (user minutes : ℕ) (db : Db)
    → Distinct db.grants
    → DistinctShares (reserved_shares user minutes db)
unfolding reserved_shares eligible
DistinctShares-reserved_shares user minutes db h =
    let chosen = select (is_eligible user db.now) db.grants in
    let rows = sort_by_expiry chosen in
    elim (Bool-cases (leb minutes (sum_of (λ (g : Grant). g.remaining_minutes) rows))) [
      | inl enough ↦ rw enough (
          DistinctShares-distribute minutes (map grant_share rows) (
            DistinctShares-map rows
              (Distinct-sort chosen (Distinct-select (is_eligible user db.now) db.grants h))))
      | inr short ↦ rw short tt
    ]

-- Two rows of one id are one row.
agree_head :
    (g : Grant) (gs : List Grant)
    → All (λ (h : Grant). h.id ≢ g.id) gs
    → All (λ (h : Grant). h.id ≡ g.id → h.remaining_minutes ≤ g.remaining_minutes) gs
agree_head g [] n = tt
agree_head g (k ∷ ks) n = ((λ e. absurd (n.0 e)), agree_head g ks n.1)

agree_tail :
    (g : Grant) (gs ks : List Grant)
    → All (λ (k : Grant). k.id ≢ g.id) ks
    → All
        (λ (k : Grant).
          All (λ (h : Grant). h.id ≡ k.id → h.remaining_minutes ≤ k.remaining_minutes) gs)
        ks
    → All
        (λ (k : Grant).
          All (λ (h : Grant). h.id ≡ k.id → h.remaining_minutes ≤ k.remaining_minutes) (g ∷ gs))
        ks
agree_tail g gs [] n h = tt
agree_tail g gs (k ∷ ks) n h = (((λ e. absurd (n.0 (sym e))), h.0), agree_tail g gs ks n.1 h.1)

agree :
    (gs : List Grant)
    → Distinct gs
    → All
        (λ (g : Grant).
          All (λ (h : Grant). h.id ≡ g.id → h.remaining_minutes ≤ g.remaining_minutes) gs)
        gs
agree [] d = tt
agree (g ∷ gs) d =
    (((λ e. omega arith), agree_head g gs d.0), agree_tail g gs gs d.0 (agree gs d.1))

share_of-le :
    (g : Grant) (rows : List Share)
    → All (λ (s : Share). s.grant ≡ g.id → s.minutes ≤ g.remaining_minutes) rows
    → share_of g.id rows ≤ g.remaining_minutes
unfolding share_of
share_of-le g [] h = omega arith
share_of-le g (s ∷ rest) h = ground (arith, share_of-le g rest h.1)

-- A reservation takes from no grant more than it has.
pub reserved_shares_fit :
    (user minutes : ℕ) (db : Db)
    → Distinct db.grants
    → All
        (λ (g : Grant). share_of g.id (reserved_shares user minutes db) ≤ g.remaining_minutes)
        db.grants
unfolding grant_share
reserved_shares_fit user minutes db d =
    All-imp _ _ db.grants
      (λ g h. share_of-le g (reserved_shares user minutes db) (
        All-reserved_shares (λ k. k.id ≡ g.id → k.remaining_minutes ≤ g.remaining_minutes) _ user
          minutes db (λ k p. p) (λ s n p e. omega (arith, p e))
          (All-select _ (is_eligible user db.now) db.grants h)))
      (agree db.grants d)
