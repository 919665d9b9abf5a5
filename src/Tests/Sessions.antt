-- ===== src/Tests/Sessions.antt =====
-- The theorems on sessions and on Stripe's events at concrete data.
use sabermatic_dev.Prelude.{ap, ℕ, ◌≡◌, refl, arith, Option, none, List, [], ◌∷◌, String}
use sabermatic_dev.Billing.{
  BillingSnapshot, resolve, duration_allowed, balance_sufficient, concurrent_sessions_allowed,
}
use sabermatic_dev.Store.Rows.{Db, InterviewSession, Job, completed}
use sabermatic_dev.Store.Sessions.{
  find_session, acquire_generating_status, count_active_sessions_by_user,
}
use sabermatic_dev.Store.Grants.Balance.{get_billing_snapshot}
use sabermatic_dev.Store.Grants.Refund.{is_entry_of}
use sabermatic_dev.Ledger.Books.{IsBooked}
use sabermatic_dev.Session.Errors.{ok}
use sabermatic_dev.Session.Create.{create_session, validate}
use sabermatic_dev.Session.End.{fail_session}
use sabermatic_dev.Session.Reservation.{
  create_session_charges, create_session_admits, Admitted, Created,
}
use sabermatic_dev.Session.Failure.{create_fail_restores}
use sabermatic_dev.Session.Lifecycle.{Op, create, acquire, complete, retry_evaluation, run}
use sabermatic_dev.Session.Lifecycle.Writes.{is_live}
use sabermatic_dev.Session.Lifecycle.Ended.{IsOver, run-IsOver_refuses}
use sabermatic_dev.Session.Lifecycle.Accounts.{run-IsBooked}
use sabermatic_dev.Webhook.{Event, handle_stripe_webhook}
use sabermatic_dev.Webhook.Again.{handle_stripe_webhook_idem}
use sabermatic_dev.Webhook.Books.{handle_stripe_webhook-IsBooked}
use sabermatic_dev.Tests.Data.{store, store-IsBooked, interview, half_an_hour}

admitted : validate half_an_hour (store []) ≡ ok 30
unfolding validate get_billing_snapshot duration_allowed resolve concurrent_sessions_allowed
    count_active_sessions_by_user balance_sufficient
admitted = refl

create_session_charges_example :
    (s : InterviewSession) × (db' : Db) × (create_session half_an_hour (store []) ≡ (ok s, db'))
    × Created half_an_hour (store []) 30 s db'
create_session_charges_example =
    create_session_charges half_an_hour (store []) (store-IsBooked []) 30 admitted

made :
    (s : InterviewSession) × (db' : Db) × (create_session half_an_hour (store []) ≡ (ok s, db'))
    × Created half_an_hour (store []) 30 s db'
made = create_session_charges half_an_hour (store []) (store-IsBooked []) 30 admitted

create_session_admits_example :
    (d : ℕ) × (bs : BillingSnapshot) × Admitted half_an_hour (store []) d bs
create_session_admits_example =
    create_session_admits half_an_hour (store []) made.0 (ap (λ r. r.0) made.2)

create_fail_restores_example :
    ((fail_session 10 (create_session half_an_hour (store [])).1).0 ≡ ok tt)
    × ((fail_session 10 (create_session half_an_hour (store [])).1).1.grants ≡ (store []).grants)
unfolding find_session is_entry_of
create_fail_restores_example =
    create_fail_restores half_an_hour (store []) (store-IsBooked [])
      (record { unused = refl; unbilled = (refl, tt) }) 30 admitted

abbrev queue : Job → List Job → List Job
queue j js = j ∷ js

abbrev later_ops : List Op
later_ops = acquire 5 ∷ complete 5 3 ∷ create half_an_hour ∷ retry_evaluation 5 1 ∷ []

run-IsOver_refuses_example :
    IsOver 5 (run queue later_ops (store (interview completed ∷ [])))
    × ((acquire_generating_status 5 (run queue later_ops (store (interview completed ∷ [])))).1
        ≡ none)
unfolding is_live
run-IsOver_refuses_example =
    run-IsOver_refuses queue 5 later_ops (store (interview completed ∷ []))
      (record { given = omega arith; rows = ((λ e. refl), tt) })

abbrev renewal : Event
renewal = record { id = "evt_9"; kind = "invoice.paid"; object_value = λ path. "cus_1" }

abbrev no_uuid : String → Option ℕ
no_uuid s = none

handle_stripe_webhook_idem_example :
    (handle_stripe_webhook no_uuid renewal (handle_stripe_webhook no_uuid renewal (store [])).1).1
    ≡ (handle_stripe_webhook no_uuid renewal (store [])).1
handle_stripe_webhook_idem_example = handle_stripe_webhook_idem no_uuid renewal (store [])

handle_stripe_webhook-IsBooked_example :
    IsBooked (handle_stripe_webhook no_uuid renewal (store [])).1
handle_stripe_webhook-IsBooked_example =
    handle_stripe_webhook-IsBooked no_uuid renewal (store []) (store-IsBooked [])

run-IsBooked_example : IsBooked (run queue later_ops (store (interview completed ∷ [])))
run-IsBooked_example =
    run-IsBooked queue later_ops (store (interview completed ∷ []))
      (store-IsBooked (interview completed ∷ []))
