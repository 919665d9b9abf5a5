-- ===== src/Webhook/Induction.antt =====
-- A property of all webhook handlers from the five things that a handler can come down to.
use sabermatic_dev.Prelude.{
  ℕ, Bool, true, false, [], ◌∷◌, if◌then◌else◌, Option, some, none, String, str_eq,
}
use sabermatic_dev.Prelude.Int.{ℤ, pos, int32}
use sabermatic_dev.Billing.{plan_by_name}
use sabermatic_dev.Store.Rows.{Db}
use sabermatic_dev.Store.Grants.Create.{create_purchase_grant, create_subscription_grant}
use sabermatic_dev.Store.Users.{update_plan_by_stripe_customer}
use sabermatic_dev.Webhook.{
  Event, Reply, done, stored, granted, handle_checkout_completed, handle_invoice_paid,
  handle_subscription_deleted, handle_subscription_updated, handle_stripe_webhook, plan_of_status,
}
use sabermatic_dev.Webhook.Atoi.{atoi}

abbrev pub Handler : Type 0
Handler = Db → Reply × Db

module _ (P : Handler → Type 0) where
  by_test : (b : Bool) (f g : Handler) → P f → P g → P (λ db. if b then f db else g db)
  by_test true f g p q = p
  by_test false f g p q = q

  by_option :
      {A : Type 0} (o : Option A) (f : Handler) (g : A → Handler)
      → P f
      → ((a : A) → P (g a))
      → P (λ db. elim o [ none ↦ f db | some a ↦ g a db ])
  by_option none f g p q = p
  by_option (some a) f g p q = q a

module _ (P : Handler → Type 0) (event : Event) (nothing : P (λ db. (done, db)))
    (buys : (user : ℕ) (n : ℤ) → P (λ db. stored (create_purchase_grant user event.id n db) db))
    (renews : (cust : String) (n : ℤ)
      → P (λ db. granted (create_subscription_grant cust event.id n "pro" db) db))
    (plans : (plan cust : String)
      → P (λ db. (done, (update_plan_by_stripe_customer plan cust db).0))) where
  checkout : (parse_uuid : String → Option ℕ) → P (handle_checkout_completed parse_uuid event)
  unfolding handle_checkout_completed
  checkout parse_uuid = by_test P _ _ _ nothing (
      by_test P _ _ _ nothing (
        by_option P (parse_uuid (event.object_value ("metadata" ∷ "user_id" ∷ []))) _ _ nothing
          (λ user. by_test P _ _ _ nothing (
            by_option P (atoi (event.object_value ("metadata" ∷ "pack_minutes" ∷ []))) _ _ nothing
              (λ n. buys user (int32 n))))))

  invoice : P (handle_invoice_paid event)
  unfolding handle_invoice_paid plan_by_name
  invoice =
      by_test P _ _ _ nothing (renews (event.object_value ("customer" ∷ [])) (int32 (pos 600)))

  pub handle_stripe_webhook-induction :
      (parse_uuid : String → Option ℕ) → P (handle_stripe_webhook parse_uuid event)
  unfolding handle_stripe_webhook handle_subscription_deleted handle_subscription_updated
  handle_stripe_webhook-induction parse_uuid =
      let no_customer = str_eq (event.object_value ("customer" ∷ [])) "" in
      by_test P (str_eq event.kind "checkout.session.completed") _ _ (checkout parse_uuid) (
        by_test P (str_eq event.kind "invoice.paid") _ _ invoice (
          by_test P (str_eq event.kind "customer.subscription.deleted") _ _
            (by_test P no_customer _ _ nothing
              (plans "free" (event.object_value ("customer" ∷ []))))
            (by_test P (str_eq event.kind "customer.subscription.updated") _ _
              (by_test P no_customer _ _ nothing (
                plans (plan_of_status (event.object_value ("status" ∷ [])))
                  (event.object_value ("customer" ∷ []))))
              nothing)))
