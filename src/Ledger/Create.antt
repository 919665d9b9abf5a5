-- ===== src/Ledger/Create.antt =====
-- The queries that create grants: they keep the books, and one Stripe event makes one grant.
use sabermatic_dev.Prelude.{
  ℕ, zero, suc, ◌<◌, ◌≡◌, ◌≢◌, refl, inl, inr, List, [], ◌∷◌, ◌++◌, map, arith, All, All-imp,
  All-append, Bool-cases, select, Option, some, none, String,
}
use sabermatic_dev.Prelude.Int.{ℤ, pos, negsuc}
use sabermatic_dev.Store.Rows.{
  Db, Grant, LedgerEntry, Source, Reason, User, subscription, subscription_renewal,
}
use sabermatic_dev.Store.Grants.Create.{
  insert_grant, has_event, has_user, has_free_grant, create_admin_grant, create_purchase_grant,
  create_subscription_grant, grant_first, ensure_free_grant, set_plan, SubscriptionGrantRow,
}
use sabermatic_dev.Store.Users.{is_customer}
use sabermatic_dev.Ledger.Shares.{Distinct}
use sabermatic_dev.Ledger.Books.{
  IsBooked, IsBalanced, IsWithin, credits, debits, credits-append, debits-append,
}

unknown_grant :
    (n : ℕ) (es : List LedgerEntry)
    → All (λ (e : LedgerEntry). e.grant < n) es
    → (credits n es ≡ 0) × (debits n es ≡ 0)
unknown_grant n [] h = (refl, refl)
unknown_grant n (e ∷ es) h = ground (arith, unknown_grant n es h.1)

Distinct-append :
    (n : ℕ) (g : Grant) (gs : List Grant)
    → g.id ≡ n
    → All (λ (h : Grant). h.id < n) gs
    → Distinct gs
    → Distinct (gs ++ g ∷ [])
Distinct-append n g [] e old d = (tt, tt)
Distinct-append n g (k ∷ ks) e old d = (
  All-append (λ h. h.id ≢ k.id) ks (g ∷ []) d.0 (omega arith, tt),
  Distinct-append n g ks e old.1 d.1,
)

module _ (user : ℕ) (source : Source) (event : Option String) (minutes : ℕ) (expires : Option ℕ)
    (reason : Reason) (db : Db) where
  abbrev after : Db
  after = insert_grant user source event minutes expires reason db

  abbrev new_entries : List LedgerEntry
  new_entries =
      (record {
        user = user;
        grant = db.next_id;
        amount = pos minutes;
        reason = reason;
        session = none;
        created_at = db.now;
      })
      ∷ []

  abbrev new_grant : Grant
  new_grant = record {
    id = db.next_id;
    user = user;
    source = source;
    stripe_event = event;
    initial_minutes = minutes;
    remaining_minutes = minutes;
    expires_at = expires;
    created_at = db.now;
  }

  old_balance :
      (g : Grant)
      → IsBalanced db.entries g
      → g.id < db.next_id
      → IsBalanced (db.entries ++ new_entries) g
  old_balance g h k =
      ground (
        arith,
        credits-append g.id db.entries new_entries,
        debits-append g.id db.entries new_entries,
      )

  new_balance :
      (g : Grant)
      → All (λ (e : LedgerEntry). e.grant < db.next_id) db.entries
      → g.id ≡ db.next_id
      → g.remaining_minutes ≡ minutes
      → IsBalanced (db.entries ++ new_entries) g
  new_balance g old same full = ground (
    arith,
    credits-append db.next_id db.entries new_entries,
    debits-append db.next_id db.entries new_entries,
    unknown_grant db.next_id db.entries old,
  )

  old_balances :
      (gs : List Grant)
      → All (IsBalanced db.entries) gs
      → All (λ (g : Grant). g.id < db.next_id) gs
      → All (IsBalanced (db.entries ++ new_entries)) gs
  old_balances [] b o = tt
  old_balances (g ∷ gs) b o = (old_balance g b.0 o.0, old_balances gs b.1 o.1)

  pub insert_grant-IsBooked : IsBooked db → IsBooked after
  unfolding insert_grant
  insert_grant-IsBooked h = record {
    balanced =
        All-append (IsBalanced after.entries) db.grants _
          (old_balances db.grants h.balanced h.old_grants)
          (new_balance new_grant h.old_entries refl refl, tt);
    within = All-append IsWithin db.grants _ h.within (omega arith, tt);
    distinct = Distinct-append db.next_id _ db.grants refl h.old_grants h.distinct;
    old_grants =
        All-append _ db.grants _ (All-imp _ _ db.grants (λ g k. omega arith) h.old_grants)
          (omega arith, tt);
    old_entries =
        All-append _ db.entries _ (All-imp _ _ db.entries (λ e k. omega arith) h.old_entries)
          (omega arith, tt);
  }

-- What a query returned, if it did, keeps the books.
abbrev pub BookedResult : Option Db → Type 0
BookedResult none = Unit
BookedResult (some db) = IsBooked db

-- If the books are right, so they are after CreatePurchaseGrant, whether it adds a grant, has seen
-- the event, or is refused.
pub create_purchase_grant-IsBooked :
    (user : ℕ) (event : String) (minutes : ℤ) (db : Db)
    → IsBooked db
    → BookedResult (create_purchase_grant user event minutes db)
unfolding create_purchase_grant
create_purchase_grant-IsBooked user event (pos zero) db h = tt
create_purchase_grant-IsBooked user event (negsuc n) db h = tt
create_purchase_grant-IsBooked user event (pos (suc n)) db h =
    elim (Bool-cases (has_event event db.grants)) [
      | inl seen ↦ rw seen h
      | inr new ↦ elim (Bool-cases (has_user user db.users)) [
        | inl known ↦ rw (new, known) (insert_grant-IsBooked user _ _ (suc n) _ _ db h)
        | inr unknown ↦ rw (new, unknown) tt
      ]
    ]

-- If the books are right, so they are after CreateAdminGrant.
create_admin_grant-IsBooked :
    (user : ℕ) (minutes : ℤ) (db : Db)
    → IsBooked db
    → BookedResult (create_admin_grant user minutes db)
unfolding create_admin_grant
create_admin_grant-IsBooked user (pos zero) db h = tt
create_admin_grant-IsBooked user (negsuc n) db h = tt
create_admin_grant-IsBooked user (pos (suc n)) db h = elim (Bool-cases (has_user user db.users)) [
  | inl known ↦ rw known (insert_grant-IsBooked user _ _ (suc n) _ _ db h)
  | inr unknown ↦ rw unknown tt
]

-- If the books are right, so they are after EnsureFreeGrant, whether it adds the free grant, finds
-- one, or is refused.
ensure_free_grant-IsBooked :
    (user : ℕ) (minutes : ℤ) (expires : ℕ) (db : Db)
    → IsBooked db
    → BookedResult (ensure_free_grant user minutes expires db)
unfolding ensure_free_grant
ensure_free_grant-IsBooked user (pos zero) expires db h = tt
ensure_free_grant-IsBooked user (negsuc n) expires db h = tt
ensure_free_grant-IsBooked user (pos (suc n)) expires db h =
    elim (Bool-cases (has_free_grant user db.grants)) [
      | inl seen ↦ rw seen h
      | inr new ↦ elim (Bool-cases (has_user user db.users)) [
        | inl known ↦ rw (new, known) (insert_grant-IsBooked user _ _ (suc n) _ _ db h)
        | inr unknown ↦ rw (new, unknown) tt
      ]
    ]

abbrev pub BookedRow : Option (Db × SubscriptionGrantRow) → Type 0
BookedRow none = Unit
BookedRow (some (db, row)) = IsBooked db

grant_first-IsBooked :
    (us : List User) (event : String) (minutes : ℤ) (plan : String) (db : Db)
    → IsBooked db
    → BookedRow (grant_first us event minutes plan db)
unfolding grant_first
grant_first-IsBooked [] event minutes plan db h = h
grant_first-IsBooked (u ∷ us) event (pos zero) plan db h = tt
grant_first-IsBooked (u ∷ us) event (negsuc n) plan db h = tt
grant_first-IsBooked (u ∷ us) event (pos (suc n)) plan db h =
    elim (Bool-cases (has_event event db.grants)) [
      | inl seen ↦ rw seen h
      | inr new ↦ rw new (
          same_tables
            (insert_grant-IsBooked u.id subscription _ (suc n) _ subscription_renewal db h))
    ]
  where
    same_tables :
        {db' : Db}
        → IsBooked db'
        → IsBooked (record db' { users = map (set_plan u.id plan) db.users })
    same_tables b = record {
      balanced = b.balanced;
      within = b.within;
      distinct = b.distinct;
      old_grants = b.old_grants;
      old_entries = b.old_entries;
    }

-- If the books are right, so they are after CreateSubscriptionGrant, whether it adds a grant and
-- sets the plan, has seen the event, knows no such customer, or is refused.
pub create_subscription_grant-IsBooked :
    (cust event : String) (minutes : ℤ) (plan : String) (db : Db)
    → IsBooked db
    → BookedRow (create_subscription_grant cust event minutes plan db)
unfolding create_subscription_grant
create_subscription_grant-IsBooked cust event minutes plan db h =
    grant_first-IsBooked (select (is_customer cust) db.users) event minutes plan db h
