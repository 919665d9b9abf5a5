-- ===== src/Webhook/Again.antt =====
-- Stripe delivers an event at least once: a second delivery changes nothing.
use sabermatic_dev.Prelude.{
  ℕ, zero, suc, ◌≡◌, refl, ap, inl, inr, true, false, List, [], ◌∷◌, ◌++◌, map, arith,
  if◌then◌else◌, Bool-cases, select, Option, some, none, String, eq_iff, length,
}
use sabermatic_dev.Prelude.Int.{ℤ, pos, negsuc}
use sabermatic_dev.Store.Rows.{
  Db, User, Grant, Source, Reason, purchase, purchased, subscription, subscription_renewal,
}
use sabermatic_dev.Store.Grants.Create.{
  create_purchase_grant, create_subscription_grant, SubscriptionGrantRow, has_event, has_user,
  insert_grant, grant_first, same_event, set_plan,
}
use sabermatic_dev.Store.Users.{update_plan_by_stripe_customer, is_customer}
use sabermatic_dev.Webhook.{Event, handle_stripe_webhook, stored, granted, done}
use sabermatic_dev.Webhook.Induction.{Handler, handle_stripe_webhook-induction}

-- The state after two runs is the state after one.
abbrev IsIdempotent : Handler → Type 0
IsIdempotent f = (db : Db) → (f (f db).1).1 ≡ (f db).1

has_event-append :
    (event : String) (g : Grant) (gs : List Grant)
    → g.stripe_event ≡ some event
    → has_event event (gs ++ g ∷ []) ≡ true
unfolding has_event same_event
has_event-append event g [] e = rw e (ground (arith, eq_iff event event))
has_event-append event g (h ∷ gs) e = ground (arith, has_event-append event g gs e)

event_inserted :
    (user : ℕ) (source : Source) (event : String) (n : ℕ) (expires : Option ℕ) (reason : Reason)
    (db : Db)
    → has_event event (insert_grant user source (some event) n expires reason db).grants ≡ true
unfolding insert_grant
event_inserted user source event n expires reason db = has_event-append event _ db.grants refl

-- A query that finds nothing to do in the state that it has left.
abbrev Settles : (Db → Option Db) → Option Db → Type 0
Settles f none = Unit
Settles f (some db) = f db ≡ some db

settled :
    (f : Db → Option Db) (db : Db) (r : Option Db)
    → f db ≡ r
    → Settles f r
    → (stored (f (stored (f db) db).1) (stored (f db) db).1).1 ≡ (stored (f db) db).1
unfolding stored
settled f db none e s = rw e (rw e)
settled f db (some db') e s = rw e (rw s)

event_seen :
    (user n : ℕ) (event : String) (db : Db)
    → has_event event db.grants ≡ true
    → create_purchase_grant user event (pos (suc n)) db ≡ some db
unfolding create_purchase_grant
event_seen user n event db h = rw h

purchase-Settles :
    (user n : ℕ) (event : String) (db : Db)
    → Settles
        (create_purchase_grant user event (pos (suc n)))
        (create_purchase_grant user event (pos (suc n)) db)
unfolding create_purchase_grant
purchase-Settles user n event db = elim (Bool-cases (has_event event db.grants)) [
  | inl seen ↦ rw seen (rw seen)
  | inr new ↦ elim (Bool-cases (has_user user db.users)) [
    | inl known ↦
        rw (new, known)
          (event_seen user n event _ (event_inserted user purchase event (suc n) none purchased db))
    | inr unknown ↦ rw (new, unknown) tt
  ]
]

buys_once :
    (user : ℕ) (event : String) (n : ℤ)
    → IsIdempotent (λ db. stored (create_purchase_grant user event n db) db)
buys_once user event (pos zero) db = unfold create_purchase_grant stored in refl
buys_once user event (negsuc n) db = unfold create_purchase_grant stored in refl
buys_once user event (pos (suc n)) db =
    settled (create_purchase_grant user event (pos (suc n))) db _ refl
      (purchase-Settles user n event db)

-- The customers of a state in which one user has a new plan.
same_customers :
    (cust : String) (id : ℕ) (plan : String) (us : List User)
    → select (is_customer cust) (map (set_plan id plan) us)
      ≡ map (set_plan id plan) (select (is_customer cust) us)
unfolding is_customer set_plan
same_customers cust id plan [] = refl
same_customers cust id plan (u ∷ us) = ground (arith, same_customers cust id plan us)

abbrev Row : Type 0
Row = Db × SubscriptionGrantRow

abbrev SettlesRow : (Db → Option Row) → Option Row → Type 0
SettlesRow f none = Unit
SettlesRow f (some (db, row)) = (row' : SubscriptionGrantRow) × (f db ≡ some (db, row'))

settled_row :
    (f : Db → Option Row) (db : Db) (r : Option Row)
    → f db ≡ r
    → SettlesRow f r
    → (granted (f (granted (f db) db).1) (granted (f db) db).1).1 ≡ (granted (f db) db).1
unfolding granted
settled_row f db none e s = rw e (rw e)
settled_row f db (some (db', row)) e s = rw e (rw s.1)

granted_once :
    (us : List User) (u : User) (event plan : String) (n : ℕ) (db : Db)
    → has_event event db.grants ≡ true
    → grant_first (u ∷ us) event (pos (suc n)) plan db
      ≡ some (db, record { user_found = suc (length us); grants_created = 0 })
unfolding grant_first
granted_once us u event plan n db h = rw h

module _ (cust event plan : String) (n : ℕ) where
  abbrev renew : Db → Option Row
  renew db = create_subscription_grant cust event (pos (suc n)) plan db

  first_settles :
      (us : List User) (db : Db)
      → select (is_customer cust) db.users ≡ us
      → SettlesRow renew (grant_first us event (pos (suc n)) plan db)
  unfolding create_subscription_grant grant_first
  first_settles [] db e = (record { user_found = 0; grants_created = 0 }, rw e)
  first_settles (u ∷ us) db e = elim (Bool-cases (has_event event db.grants)) [
    | inl seen ↦
        rw seen (record { user_found = suc (length us); grants_created = 0 }, rw e (rw seen))
    | inr new ↦ rw new (settled_new new)
  ]
    where
      settled_new :
          has_event event db.grants ≡ false
          → SettlesRow renew (
              some (
                record (insert_grant u.id subscription
                    (some event)
                    (suc n)
                    none
                    subscription_renewal
                    db) { users = map (set_plan u.id plan) db.users },
                record { user_found = suc (length us); grants_created = 1 },
              ))
      settled_new new = (
        record { user_found = suc (length (map (set_plan u.id plan) us)); grants_created = 0 },
        rw (same_customers cust u.id plan db.users) (
            rw e
              (rw (event_inserted u.id subscription event (suc n) none subscription_renewal db))),
      )

-- Without minutes the query finds no customer, or fails.
refused :
    (cust event plan : String) (n : ℤ)
    → ((u : User) (us : List User) (db : Db) → grant_first (u ∷ us) event n plan db ≡ none)
    → (us : List User) (db : Db) → select (is_customer cust) db.users ≡ us
    → SettlesRow
        (λ d. create_subscription_grant cust event n plan d)
        (grant_first us event n plan db)
unfolding create_subscription_grant grant_first
refused cust event plan n bad [] db e = (record { user_found = 0; grants_created = 0 }, rw e)
refused cust event plan n bad (u ∷ us) db e = rw (bad u us db) tt

renews_once :
    (cust event plan : String) (n : ℤ)
    → IsIdempotent (λ db. granted (create_subscription_grant cust event n plan db) db)
renews_once cust event plan (pos (suc n)) db = settled_row (renew cust event plan n) db _ refl (
    unfold create_subscription_grant in
    first_settles cust event plan n (select (is_customer cust) db.users) db refl)
renews_once cust event plan (pos zero) db =
    settled_row (λ d. create_subscription_grant cust event (pos zero) plan d) db _ refl
      (unfold create_subscription_grant in
        refused cust event plan (pos zero) (λ u us d. unfold grant_first in refl)
          (select (is_customer cust) db.users) db refl)
renews_once cust event plan (negsuc n) db =
    settled_row (λ d. create_subscription_grant cust event (negsuc n) plan d) db _ refl
      (unfold create_subscription_grant in
        refused cust event plan (negsuc n) (λ u us d. unfold grant_first in refl)
          (select (is_customer cust) db.users) db refl)

plans_once :
    (plan cust : String)
    → IsIdempotent (λ db. (done, (update_plan_by_stripe_customer plan cust db).0))
unfolding update_plan_by_stripe_customer
plans_once plan cust db = ap (λ (us : List User). record db { users = us }) (twice db.users)
  where
    twice :
        (us : List User)
        → map
            (λ (u : User). if is_customer cust u then record u { plan = plan } else u)
            (map (λ (u : User). if is_customer cust u then record u { plan = plan } else u) us)
          ≡ map (λ (u : User). if is_customer cust u then record u { plan = plan } else u) us
    twice [] = refl
    twice (u ∷ us) = ground (arith, twice us)

-- An event that is delivered again, with no other write between, leaves the database as the first
-- delivery left it: no second grant and no second ledger entry, whichever branch it takes.
pub handle_stripe_webhook_idem :
    (parse_uuid : String → Option ℕ) (event : Event) (db : Db)
    → let db' = (handle_stripe_webhook parse_uuid event db).1 in
      (handle_stripe_webhook parse_uuid event db').1 ≡ db'
handle_stripe_webhook_idem parse_uuid event db =
    handle_stripe_webhook-induction IsIdempotent event (λ d. refl)
      (λ user n. buys_once user event.id n) (λ cust n. renews_once cust event.id "pro" n) plans_once
      parse_uuid db
