-- ===== src/Webhook/Books.antt =====
-- Every webhook keeps the books of grants and ledger.
use sabermatic_dev.Prelude.{ℕ, Option, some, none, String}
use sabermatic_dev.Store.Rows.{Db}
use sabermatic_dev.Store.Grants.Create.{SubscriptionGrantRow}
use sabermatic_dev.Store.Users.{update_plan_by_stripe_customer}
use sabermatic_dev.Ledger.Books.{IsBooked}
use sabermatic_dev.Ledger.Create.{
  BookedResult, BookedRow, create_purchase_grant-IsBooked, create_subscription_grant-IsBooked,
}
use sabermatic_dev.Webhook.{Event, handle_stripe_webhook, stored, granted}
use sabermatic_dev.Webhook.Induction.{handle_stripe_webhook-induction}

stored-IsBooked :
    (o : Option Db) (db : Db) → IsBooked db → BookedResult o → IsBooked (stored o db).1
unfolding stored
stored-IsBooked none db h r = h
stored-IsBooked (some db') db h r = r

granted-IsBooked :
    (o : Option (Db × SubscriptionGrantRow)) (db : Db)
    → IsBooked db
    → BookedRow o
    → IsBooked (granted o db).1
unfolding granted
granted-IsBooked none db h r = h
granted-IsBooked (some (db', row)) db h r = r

plan-IsBooked :
    (plan cust : String) (db : Db)
    → IsBooked db
    → IsBooked (update_plan_by_stripe_customer plan cust db).0
unfolding update_plan_by_stripe_customer
plan-IsBooked plan cust db h = record {
  balanced = h.balanced;
  within = h.within;
  distinct = h.distinct;
  old_grants = h.old_grants;
  old_entries = h.old_entries;
}

-- If the books are right, they stay so whatever event Stripe sends, also when a constraint refuses the grant.
pub handle_stripe_webhook-IsBooked :
    (parse_uuid : String → Option ℕ) (event : Event) (db : Db)
    → IsBooked db
    → IsBooked (handle_stripe_webhook parse_uuid event db).1
handle_stripe_webhook-IsBooked parse_uuid event =
    handle_stripe_webhook-induction (λ f. (db : Db) → IsBooked db → IsBooked (f db).1) event
      (λ db h. h)
      (λ user n db h. stored-IsBooked _ db h (create_purchase_grant-IsBooked user event.id n db h))
      (λ cust n db h.
        granted-IsBooked _ db h (create_subscription_grant-IsBooked cust event.id n "pro" db h))
      plan-IsBooked parse_uuid
