-- ===== src/Store/Users.antt =====
-- internal/db/users.sql.go: the queries of the billing webhooks.
use sabermatic_dev.Prelude.{
  ℕ, Bool, true, false, ◌&&◌, none, some, map, String, str_eq, if◌then◌else◌, select, length,
}
use sabermatic_dev.Store.Rows.{Db, User}

-- `stripe_customer_id = $2 AND deleted_at IS NULL`
unfoldable pub is_customer : String → User → Bool
is_customer cust u = elim u.stripe_customer [
  | none ↦ false
  | some c ↦ str_eq c cust && elim u.deleted_at [ none ↦ true | some _ ↦ false ]
]

-- The number of rows that were updated comes second.
unfoldable pub update_plan_by_stripe_customer : String → String → Db → Db × ℕ
unfolding is_customer
update_plan_by_stripe_customer plan cust db = (
  record db {
    users = map (λ (u : User). if is_customer cust u then record u { plan = plan } else u) db.users;
  },
  length (select (is_customer cust) db.users),
)
