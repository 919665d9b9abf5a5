-- ===== src/Store/Grants/Shares.antt =====
-- internal/db/grants.sql.go: the common table expressions of ReserveMinutes,
-- RefundSessionMinutes and FullRefundSessionMinutes.
use sabermatic_dev.Prelude.{
  ℕ, ◌+◌, ◌-◌, min, Bool, true, false, ◌&&◌, Option, none, some, List, [], ◌∷◌, ltb, leb, ◌==◌,
  if◌then◌else◌,
}
use sabermatic_dev.Prelude.Int.{ℤ, neg_part}
use sabermatic_dev.Store.Rows.{Grant, LedgerEntry, Reason}

-- Minutes taken from a grant, or given back to it: a row of `distributed`.
pub record Share : Type 0 where
  pub grant : ℕ
  pub minutes : ℕ

-- `expires_at IS NULL OR expires_at > NOW()`
unfoldable pub is_live : ℕ → Grant → Bool
is_live now g = elim g.expires_at [ none ↦ true | some t ↦ ltb now t ]

unfoldable pub is_eligible : ℕ → ℕ → Grant → Bool
unfolding is_live
is_eligible user now g = g.user == user && (ltb 0 g.remaining_minutes && is_live now g)

-- ORDER BY expires_at ASC NULLS LAST
unfoldable pub expires_first : Option ℕ → Option ℕ → Bool
expires_first none none = true
expires_first none (some b) = false
expires_first (some a) none = true
expires_first (some a) (some b) = leb a b

unfoldable pub insert_by_expiry : Grant → List Grant → List Grant
unfolding expires_first
insert_by_expiry g [] = g ∷ []
insert_by_expiry g (h ∷ hs) =
    if expires_first g.expires_at h.expires_at then g ∷ h ∷ hs else h ∷ insert_by_expiry g hs

unfoldable pub sort_by_expiry : List Grant → List Grant
unfolding insert_by_expiry
sort_by_expiry [] = []
sort_by_expiry (g ∷ gs) = insert_by_expiry g (sort_by_expiry gs)

-- ORDER BY created_at DESC
unfoldable pub insert_by_newest : LedgerEntry → List LedgerEntry → List LedgerEntry
insert_by_newest e [] = e ∷ []
insert_by_newest e (f ∷ fs) =
    if leb f.created_at e.created_at then e ∷ f ∷ fs else f ∷ insert_by_newest e fs

unfoldable pub sort_by_newest : List LedgerEntry → List LedgerEntry
unfolding insert_by_newest
sort_by_newest [] = []
sort_by_newest (e ∷ es) = insert_by_newest e (sort_by_newest es)

unfoldable pub grant_share : Grant → Share
grant_share g = record { grant = g.id; minutes = g.remaining_minutes }

-- `-amount AS debit`: the amount of a reservation is not positive.
unfoldable pub reserve_share : LedgerEntry → Share
reserve_share e = record { grant = e.grant; minutes = neg_part e.amount }

-- The recursive CTE: each row takes what it can, and the next is read while something remains.
unfoldable pub distribute : ℕ → List Share → List Share
distribute total [] = []
distribute total (s ∷ rest) =
    let taken = min s.minutes total in
    let more = distribute (total - taken) rest in
    (record { grant = s.grant; minutes = taken }) ∷ (if ltb 0 (total - taken) then more else [])

-- The row that joins with a grant: `d.grant_id = g.id AND d.debit > 0`; 0 if there is none.
unfoldable pub share_of : ℕ → List Share → ℕ
share_of id [] = 0
share_of id (s ∷ rest) = if s.grant == id && ltb 0 s.minutes then s.minutes else share_of id rest

unfoldable pub debit : List Share → Grant → Grant
unfolding share_of
debit rows g = record g { remaining_minutes = g.remaining_minutes - share_of g.id rows }

-- The minutes that go back to a grant: none if they would pass its initial minutes.
unfoldable pub credit_of : List Share → Grant → ℕ
unfolding share_of
credit_of rows g =
    let c = share_of g.id rows in if leb (g.remaining_minutes + c) g.initial_minutes then c else 0

unfoldable pub credit : List Share → Grant → Grant
unfolding credit_of
credit rows g = record g { remaining_minutes = g.remaining_minutes + credit_of rows g }

-- RETURNING g.id, minutes: one row for each grant that was updated.
unfoldable pub updated : (Grant → ℕ) → List Grant → List Share
updated delta [] = []
updated delta (g ∷ gs) =
    let rest = updated delta gs in
    if ltb 0 (delta g) then (record { grant = g.id; minutes = delta g }) ∷ rest else rest

unfoldable pub debited : List Share → List Grant → List Share
unfolding updated share_of
debited rows = updated (λ g. share_of g.id rows)

unfoldable pub credited : List Share → List Grant → List Share
unfolding updated credit_of
credited rows = updated (credit_of rows)

unfoldable pub to_entry : ℕ → ℕ → Reason → ℕ → ℤ → Share → LedgerEntry
to_entry user session reason now amount s = record {
  user = user;
  grant = s.grant;
  amount = amount;
  reason = reason;
  session = some session;
  created_at = now;
}
