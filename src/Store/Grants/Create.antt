-- ===== src/Store/Grants/Create.antt =====
-- internal/db/grants.sql.go: the queries that create grants.
-- A query that a constraint of the schema refuses returns `none`: initial_minutes > 0, and the
-- foreign key of user_id.
use sabermatic_dev.Prelude.{
  ℕ, suc, Bool, true, false, ◌&&◌, ◌||◌, Option, none, some, List, [], ◌∷◌, ◌++◌, map, String,
  str_eq, ◌==◌, if◌then◌else◌, select, length,
}
use sabermatic_dev.Prelude.Int.{ℤ, pos}
use sabermatic_dev.Store.Rows.{
  Db, Grant, Source, Reason, User, free_grant, subscription, purchase, admin, free_trial,
  subscription_renewal, purchased, admin_grant,
}
use sabermatic_dev.Store.Users.{is_customer}

-- A new row of grants with its ledger entry. The CHECK wants more than 0 minutes.
unfoldable pub insert_grant : ℕ → Source → Option String → ℕ → Option ℕ → Reason → Db → Db
insert_grant user source event minutes expires reason db = record db {
  grants =
      db.grants
      ++ (record {
        id = db.next_id;
        user = user;
        source = source;
        stripe_event = event;
        initial_minutes = minutes;
        remaining_minutes = minutes;
        expires_at = expires;
        created_at = db.now;
      })
        ∷ [];
  entries =
      db.entries
      ++ (record {
        user = user;
        grant = db.next_id;
        amount = pos minutes;
        reason = reason;
        session = none;
        created_at = db.now;
      })
        ∷ [];
  next_id = suc db.next_id;
}

unfoldable pub has_user : ℕ → List User → Bool
has_user id [] = false
has_user id (u ∷ us) = id == u.id || has_user id us

unfoldable pub same_event : String → Grant → Bool
same_event event g = elim g.stripe_event [ none ↦ false | some e ↦ str_eq e event ]

-- Has a grant of this Stripe event been stored?
unfoldable pub has_event : String → List Grant → Bool
unfolding same_event
has_event event [] = false
has_event event (g ∷ gs) = same_event event g || has_event event gs

unfoldable pub is_free_grant : Source → Bool
is_free_grant free_grant = true
is_free_grant _ = false

unfoldable pub has_free_grant : ℕ → List Grant → Bool
unfolding is_free_grant
has_free_grant user [] = false
has_free_grant user (g ∷ gs) = (g.user == user && is_free_grant g.source) || has_free_grant user gs

unfoldable pub create_admin_grant : ℕ → ℤ → Db → Option Db
unfolding insert_grant has_user
create_admin_grant user (pos (suc n)) db =
    if has_user user db.users
    then some (insert_grant user admin none (suc n) none admin_grant db)
    else none
create_admin_grant user _ db = none

unfoldable pub create_purchase_grant : ℕ → String → ℤ → Db → Option Db
unfolding insert_grant has_user has_event
create_purchase_grant user event (pos (suc n)) db =
    if has_event event db.grants
    then some db
    else if has_user user db.users
    then some (insert_grant user purchase (some event) (suc n) none purchased db)
    else none
create_purchase_grant user event _ db = none

unfoldable pub ensure_free_grant : ℕ → ℤ → ℕ → Db → Option Db
unfolding insert_grant has_user has_free_grant
ensure_free_grant user (pos (suc n)) expires db =
    if has_free_grant user db.grants
    then some db
    else if has_user user db.users
    then some (insert_grant user free_grant none (suc n) (some expires) free_trial db)
    else none
ensure_free_grant user _ expires db = none

unfoldable pub set_plan : ℕ → String → User → User
set_plan id plan u = if u.id == id then record u { plan = plan } else u

pub record SubscriptionGrantRow : Type 0 where
  pub user_found : ℕ
  pub grants_created : ℕ

-- Several users with one customer: the first row takes the event, and the others conflict with it.
unfoldable pub grant_first :
    List User → String → ℤ → String → Db → Option (Db × SubscriptionGrantRow)
unfolding insert_grant has_event set_plan
grant_first [] event minutes plan db = some (db, record { user_found = 0; grants_created = 0 })
grant_first (u ∷ us) event (pos (suc n)) plan db =
    let found = suc (length us) in
    if has_event event db.grants
    then some (db, record { user_found = found; grants_created = 0 })
    else let db' =
        insert_grant u.id subscription (some event) (suc n) none subscription_renewal db in
      some (
        record db' { users = map (set_plan u.id plan) db.users },
        record { user_found = found; grants_created = 1 },
      )
grant_first (u ∷ us) event _ plan db = none

unfoldable pub create_subscription_grant :
    String → String → ℤ → String → Db → Option (Db × SubscriptionGrantRow)
unfolding grant_first is_customer
create_subscription_grant cust event minutes plan db =
    grant_first (select (is_customer cust) db.users) event minutes plan db
