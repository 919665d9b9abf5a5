-- ===== src/Webhook.antt =====
-- internal/backend/billing.go: HandleStripeWebhook and its handlers.
-- Stripe's event is third-party: an event is its type, its id and the function GetObjectValue;
-- uuid.Parse is a parameter too. A failed query leaves the database and is an error; log lines
-- are left out.
pub mod Atoi
pub mod Induction
pub mod Books
pub mod Again
use sabermatic_dev.Prelude.{
  ℕ, not, ◌||◌, List, [], ◌∷◌, if◌then◌else◌, Option, some, none, String, str_eq,
}
use sabermatic_dev.Prelude.Int.{pos, int32}
use sabermatic_dev.Billing.{plan_by_name}
use sabermatic_dev.Store.Rows.{Db}
use sabermatic_dev.Store.Grants.Create.{
  create_purchase_grant, create_subscription_grant, SubscriptionGrantRow,
}
use sabermatic_dev.Store.Users.{update_plan_by_stripe_customer}
use Atoi.{atoi}

pub record Event : Type 0 where
  pub kind : String
  pub id : String
  pub object_value : List String → String

-- nil, or an error that makes Stripe send the event again.
pub data Reply : Type 0 where
  done failed : Reply

unfoldable pub stored : Option Db → Db → Reply × Db
stored none db = (failed, db)
stored (some db') db = (done, db')

module _ (parse_uuid : String → Option ℕ) where
  unfoldable pub handle_checkout_completed : Event → Db → Reply × Db
  unfolding stored
  handle_checkout_completed event db =
      let user_id = event.object_value ("metadata" ∷ "user_id" ∷ []) in
      let minutes = event.object_value ("metadata" ∷ "pack_minutes" ∷ []) in
      if not (str_eq (event.object_value ("mode" ∷ [])) "payment")
      then (done, db)
      else if str_eq user_id ""
      then (done, db)
      else elim (parse_uuid user_id) [
        | none ↦ (done, db)
        | some user ↦ if str_eq minutes "" then (done, db) else elim (atoi minutes) [
          | none ↦ (done, db)
          | some n ↦ stored (create_purchase_grant user event.id (int32 n) db) db
        ]
      ]

unfoldable pub granted : Option (Db × SubscriptionGrantRow) → Db → Reply × Db
granted none db = (failed, db)
granted (some (db', row)) db = (done, db')

unfoldable pub handle_invoice_paid : Event → Db → Reply × Db
unfolding granted plan_by_name
handle_invoice_paid event db =
    let cust = event.object_value ("customer" ∷ []) in
    if str_eq cust "" then (done, db) else elim (plan_by_name "pro") [
      | none ↦ (failed, db)
      | some plan ↦
          granted
            (create_subscription_grant cust event.id (int32 (pos plan.grant_minutes)) "pro" db) db
    ]

unfoldable pub handle_subscription_deleted : Event → Db → Reply × Db
handle_subscription_deleted event db =
    let cust = event.object_value ("customer" ∷ []) in
    if str_eq cust "" then (done, db) else (done, (update_plan_by_stripe_customer "free" cust db).0)

unfoldable pub plan_of_status : String → String
plan_of_status status =
    if str_eq status "canceled" || str_eq status "unpaid" || str_eq status "past_due"
    then "free"
    else "pro"

unfoldable pub handle_subscription_updated : Event → Db → Reply × Db
unfolding plan_of_status
handle_subscription_updated event db =
    let cust = event.object_value ("customer" ∷ []) in
    let plan = plan_of_status (event.object_value ("status" ∷ [])) in
    if str_eq cust "" then (done, db) else (done, (update_plan_by_stripe_customer plan cust db).0)

unfoldable pub handle_stripe_webhook : (String → Option ℕ) → Event → Db → Reply × Db
handle_stripe_webhook parse_uuid event db =
    if str_eq event.kind "checkout.session.completed"
    then handle_checkout_completed parse_uuid event db
    else if str_eq event.kind "invoice.paid"
    then handle_invoice_paid event db
    else if str_eq event.kind "customer.subscription.deleted"
    then handle_subscription_deleted event db
    else if str_eq event.kind "customer.subscription.updated"
    then handle_subscription_updated event db
    else (done, db)
