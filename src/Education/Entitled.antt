-- ===== src/Education/Entitled.antt =====
-- What Backend.Check reads of a user, and what the access level says of it.
use sabermatic_dev.Prelude.{
  ℕ, ◌≤◌, ◌<◌, ◌≡◌, refl, sym, ap, inl, inr, false, some, String, str_eq, ltb, arith, Bool-cases,
  Option-cases,
}
use sabermatic_dev.Billing.{
  preview, free_taste, Entitlements, educator_access_level, resolve, plan_or_free, plan_by_name,
}
use sabermatic_dev.Store.Rows.{Db, User}
use sabermatic_dev.Store.Grants.Balance
use sabermatic_dev.Store.Grants.Balance.{
  get_billing_snapshot, both, int4, sum_where, counts, counts_paid,
}
use sabermatic_dev.Session.Create.{check}
use sabermatic_dev.Session.Errors.{ok, ok_inj}

-- What the check of a user's entitlements has read.
pub record IsRead (user : ℕ) (db : Db) (e : Entitlements) : Type 0 where
  pub row : User
  pub total : ℕ
  pub paid : ℕ
  pub found : Balance.find_user user db.users ≡ some row
  pub total_read : int4 (sum_where (counts user db.now) db.grants) ≡ some total
  pub paid_read : int4 (sum_where (counts_paid user db.now) db.grants) ≡ some paid
  pub resolved :
      e
      ≡ resolve (record {
        plan = row.plan;
        free_full_educators_used = row.free_full_educators_used;
        total_balance = total;
        paid_balance = paid;
      })

pub check-IsRead : (user : ℕ) (db : Db) (e : Entitlements) → check user db ≡ ok e → IsRead user db e
unfolding check get_billing_snapshot
check-IsRead user db e = elim (Option-cases (Balance.find_user user db.users)) [
  | inl none_there ↦ rw (none_there, check, get_billing_snapshot) (λ h. absurd (ground arith))
  | inr (u, found) ↦ elim (Option-cases (int4 (sum_where (counts user db.now) db.grants))) [
    | inl over ↦ rw (found, over, both, check, get_billing_snapshot) (λ h. absurd (ground arith))
    | inr (t, total) ↦ elim (Option-cases (int4 (sum_where (counts_paid user db.now) db.grants))) [
      | inl over ↦
          rw (found, total, over, both, check, get_billing_snapshot) (λ h. absurd (ground arith))
      | inr (p, paid) ↦
          rw (found, total, paid, both, check, get_billing_snapshot)
            (λ h. record {
              row = u;
              total = t;
              paid = p;
              found = found;
              total_read = total;
              paid_read = paid;
              resolved = sym (ok_inj h);
            })
    ]
  ]
]

IsRead-check : (user : ℕ) (db : Db) (e : Entitlements) → IsRead user db e → check user db ≡ ok e
unfolding check get_billing_snapshot
IsRead-check user db e r =
    rw (r.found, r.total_read, r.paid_read, both, check, get_billing_snapshot)
      (ap ok (sym r.resolved))

pub plan-le_one : (name : String) → (plan_or_free (plan_by_name name)).free_educator_limit ≤ 1
unfolding plan_or_free plan_by_name
plan-le_one name = elim (Bool-cases (str_eq name "free")) [
  | inl is_free ↦ rw (is_free, plan_by_name, plan_or_free) (omega arith)
  | inr other ↦ elim (Bool-cases (str_eq name "pro")) [
    | inl is_pro ↦ rw (other, is_pro, plan_by_name, plan_or_free) (omega arith)
    | inr neither ↦ rw (other, neither, plan_by_name, plan_or_free) (omega arith)
  ]
]

pub level-preview :
    (e : Entitlements)
    → ltb 0 e.paid_balance ≡ false
    → ltb e.free_educator_used e.plan.free_educator_limit ≡ false
    → educator_access_level e ≡ preview
unfolding educator_access_level
level-preview e unpaid spent = rw (unpaid, spent, educator_access_level) refl

-- The access level, from what the check has read.
pub level-taste :
    (e : Entitlements)
    → educator_access_level e ≡ free_taste
    → (ltb 0 e.paid_balance ≡ false) × (e.free_educator_used < e.plan.free_educator_limit)
unfolding educator_access_level
level-taste e h = ground (arith, h)

-- What a request does after the taste leaves what the check reads.
pub IsRead-same :
    (user : ℕ) (db d : Db) (e : Entitlements)
    → d.users ≡ db.users
    → d.grants ≡ db.grants
    → d.now ≡ db.now
    → IsRead user db e
    → IsRead user d e
IsRead-same user db d e a b c r = record {
  row = r.row;
  total = r.total;
  paid = r.paid;
  found = rw a r.found;
  total_read = rw (b, c) r.total_read;
  paid_read = rw (b, c) r.paid_read;
  resolved = r.resolved;
}
