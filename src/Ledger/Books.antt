-- ===== src/Ledger/Books.antt =====
-- The ledger is double-entry: the remaining minutes of each grant are what its ledger entries
-- add up to. This file has the invariant, and that rows and entries which change together keep it.
use sabermatic_dev.Prelude.{
  ℕ, ◌+◌, ◌≤◌, ◌<◌, ◌≡◌, ◌≢◌, refl, inl, inr, List, [], ◌∷◌, ◌++◌, map, arith, ltb, ◌==◌,
  if◌then◌else◌, All, All-append, Bool-cases,
}
use sabermatic_dev.Prelude.Int.{pos, neg, pos_part, neg_part}
use sabermatic_dev.Store.Rows.{Db, Grant, LedgerEntry, Reason}
use sabermatic_dev.Store.Grants.Shares.{
  Share, share_of, updated, to_entry, debit, credit, debited, credited, credit_of,
}
use sabermatic_dev.Ledger.Shares.{total_for, Distinct, total_for-updated}

-- What the ledger has put on a grant, and taken off it.
abbrev pub credits : ℕ → List LedgerEntry → ℕ
credits id [] = 0
credits id (e ∷ es) = (if e.grant == id then pos_part e.amount else 0) + credits id es

abbrev pub debits : ℕ → List LedgerEntry → ℕ
debits id [] = 0
debits id (e ∷ es) = (if e.grant == id then neg_part e.amount else 0) + debits id es

abbrev pub IsBalanced : List LedgerEntry → Grant → Type 0
IsBalanced es g = g.remaining_minutes + debits g.id es ≡ credits g.id es

abbrev pub IsWithin : Grant → Type 0
IsWithin g = g.remaining_minutes ≤ g.initial_minutes

pub record IsBooked (db : Db) : Type 0 where
  pub balanced : All (IsBalanced db.entries) db.grants
  pub within : All IsWithin db.grants
  pub distinct : Distinct db.grants
  pub old_grants : All (λ (g : Grant). g.id < db.next_id) db.grants
  pub old_entries : All (λ (e : LedgerEntry). e.grant < db.next_id) db.entries

pub credits-append :
    (id : ℕ) (es fs : List LedgerEntry) → credits id (es ++ fs) ≡ credits id es + credits id fs
credits-append id [] fs = omega arith
credits-append id (e ∷ es) fs = omega (arith, credits-append id es fs)

pub debits-append :
    (id : ℕ) (es fs : List LedgerEntry) → debits id (es ++ fs) ≡ debits id es + debits id fs
debits-append id [] fs = omega arith
debits-append id (e ∷ es) fs = omega (arith, debits-append id es fs)

module _ (user session : ℕ) (reason : Reason) (now : ℕ) where
  abbrev pub reserve_entries : List Share → List LedgerEntry
  reserve_entries = map (λ (s : Share). to_entry user session reason now (neg s.minutes) s)

  abbrev pub refund_entries : List Share → List LedgerEntry
  refund_entries = map (λ (s : Share). to_entry user session reason now (pos s.minutes) s)

  pub credits-reserve_entries :
      (id : ℕ) (rows : List Share)
      → (credits id (reserve_entries rows) ≡ 0)
        × (debits id (reserve_entries rows) ≡ total_for id rows)
  unfolding to_entry
  credits-reserve_entries id [] = (refl, refl)
  credits-reserve_entries id (s ∷ rest) = ground (arith, credits-reserve_entries id rest)

  pub credits-refund_entries :
      (id : ℕ) (rows : List Share)
      → (credits id (refund_entries rows) ≡ total_for id rows)
        × (debits id (refund_entries rows) ≡ 0)
  unfolding to_entry
  credits-refund_entries id [] = (refl, refl)
  credits-refund_entries id (s ∷ rest) = ground (arith, credits-refund_entries id rest)

pub All-map :
    (P Q : Grant → Type 0) (f : Grant → Grant) (gs : List Grant)
    → ((g : Grant) → P g → Q (f g))
    → All P gs
    → All Q (map f gs)
All-map P Q f [] step h = tt
All-map P Q f (g ∷ gs) step h = (step g h.0, All-map P Q f gs step h.1)

pub All-map₂ :
    (P Q R : Grant → Type 0) (f : Grant → Grant) (gs : List Grant)
    → ((g : Grant) → P g → Q g → R (f g))
    → All P gs
    → All Q gs
    → All R (map f gs)
All-map₂ P Q R f [] join p q = tt
All-map₂ P Q R f (g ∷ gs) join p q = (join g p.0 q.0, All-map₂ P Q R f gs join p.1 q.1)

All-× : (P Q : Grant → Type 0) (gs : List Grant) → All P gs → All Q gs → All (λ g. P g × Q g) gs
All-× P Q [] p q = tt
All-× P Q (g ∷ gs) p q = ((p.0, q.0), All-× P Q gs p.1 q.1)

-- A change that keeps the ids keeps them distinct.
module _ (f : Grant → Grant) (same : (g : Grant) → (f g).id ≡ g.id) where
  ne-map :
      (g : Grant) (gs : List Grant)
      → All (λ (h : Grant). h.id ≢ g.id) gs
      → All (λ (h : Grant). h.id ≢ (f g).id) (map f gs)
  ne-map g [] h = tt
  ne-map g (k ∷ ks) h = (ground (arith, same k, same g), ne-map g ks h.1)

  pub Distinct-map : (gs : List Grant) → Distinct gs → Distinct (map f gs)
  Distinct-map [] h = tt
  Distinct-map (g ∷ gs) h = (ne-map g gs h.0, Distinct-map gs h.1)

old-updated :
    (n : ℕ) (delta : Grant → ℕ) (gs : List Grant)
    → All (λ (g : Grant). g.id < n) gs
    → All (λ (s : Share). s.grant < n) (updated delta gs)
unfolding updated
old-updated n delta [] h = tt
old-updated n delta (g ∷ gs) h = elim (Bool-cases (ltb 0 (delta g))) [
  | inl some_minutes ↦ rw some_minutes (h.0, old-updated n delta gs h.1)
  | inr nothing ↦ rw nothing (old-updated n delta gs h.1)
]

old-map :
    (n : ℕ) (f : Share → LedgerEntry) (rows : List Share)
    → ((s : Share) → (f s).grant ≡ s.grant)
    → All (λ (s : Share). s.grant < n) rows
    → All (λ (e : LedgerEntry). e.grant < n) (map f rows)
old-map n f [] same h = tt
old-map n f (s ∷ rest) same h = (omega (arith, same s, h.0), old-map n f rest same h.1)

-- Rows of grants and entries that change by the same amounts stay in balance, for a reservation
-- that takes no more than a grant has.
module _ (db : Db) (user session : ℕ) (reason : Reason) (rows : List Share) where
  abbrev after_debit : Db
  after_debit = record db {
    grants = map (debit rows) db.grants;
    entries = db.entries ++ reserve_entries user session reason db.now (debited rows db.grants);
  }

  abbrev after_credit : Db
  after_credit = record db {
    grants = map (credit rows) db.grants;
    entries = db.entries ++ refund_entries user session reason db.now (credited rows db.grants);
  }

  debit_balance :
      (g : Grant)
      → IsBalanced db.entries g
      → (total_for g.id (debited rows db.grants) ≡ share_of g.id rows)
        × (share_of g.id rows ≤ g.remaining_minutes)
      → IsBalanced after_debit.entries (debit rows g)
  unfolding debit
  debit_balance g h k =
      let done = debited rows db.grants in
      let new = reserve_entries user session reason db.now done in
      omega (
        arith,
        credits-append g.id db.entries new,
        debits-append g.id db.entries new,
        credits-reserve_entries user session reason db.now g.id done,
      )

  pub debit-IsBooked :
      IsBooked db
      → All (λ (g : Grant). share_of g.id rows ≤ g.remaining_minutes) db.grants
      → IsBooked after_debit
  unfolding debited debit to_entry
  debit-IsBooked h fits = record {
    balanced =
        All-map₂ (IsBalanced db.entries) _ (IsBalanced after_debit.entries) (debit rows) db.grants
          debit_balance h.balanced
          (All-× _ _ db.grants (total_for-updated (λ g. share_of g.id rows) db.grants h.distinct)
            fits);
    within = All-map IsWithin IsWithin (debit rows) db.grants (λ g p. omega arith) h.within;
    distinct = Distinct-map (debit rows) (λ g. refl) db.grants h.distinct;
    old_grants = All-map _ _ (debit rows) db.grants (λ g p. p) h.old_grants;
    old_entries = All-append _ db.entries _ h.old_entries (
        old-map db.next_id _ (debited rows db.grants) (λ s. refl)
          (old-updated db.next_id _ db.grants h.old_grants));
  }

  credit_balance :
      (g : Grant)
      → IsBalanced db.entries g
      → total_for g.id (credited rows db.grants) ≡ credit_of rows g
      → IsBalanced after_credit.entries (credit rows g)
  unfolding credit
  credit_balance g h k =
      let done = credited rows db.grants in
      let new = refund_entries user session reason db.now done in
      omega (
        arith,
        credits-append g.id db.entries new,
        debits-append g.id db.entries new,
        credits-refund_entries user session reason db.now g.id done,
      )

  credit-IsWithin : (g : Grant) → IsWithin g → IsWithin (credit rows g)
  unfolding credit
  credit-IsWithin g h = ground arith

  pub credit-IsBooked : IsBooked db → IsBooked after_credit
  unfolding credited credit to_entry
  credit-IsBooked h = record {
    balanced =
        All-map₂ (IsBalanced db.entries) _ (IsBalanced after_credit.entries) (credit rows) db.grants
          credit_balance h.balanced (total_for-updated (credit_of rows) db.grants h.distinct);
    within = All-map IsWithin IsWithin (credit rows) db.grants credit-IsWithin h.within;
    distinct = Distinct-map (credit rows) (λ g. refl) db.grants h.distinct;
    old_grants = All-map _ _ (credit rows) db.grants (λ g p. p) h.old_grants;
    old_entries = All-append _ db.entries _ h.old_entries (
        old-map db.next_id _ (credited rows db.grants) (λ s. refl)
          (old-updated db.next_id _ db.grants h.old_grants));
  }
