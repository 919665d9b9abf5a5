-- ===== src/Billing/Policy.antt =====
-- internal/billing/entitlement.go and plans.go: what the entitlements of a snapshot allow.
use sabermatic_dev.Prelude.{
  ℕ, ◌<◌, ◌≡◌, ◌≢◌, ◌↔◌, Bool, true, false, eq_iff, List, [], ◌∷◌, ◌==◌, arith, if◌then◌else◌,
}
use sabermatic_dev.Billing.{
  BillingSnapshot, full, free_taste, resolve, can_access_coach, educator_access_level,
  valid_pack_size, all_pack_sizes,
}

pub member : ℕ → List ℕ → Bool
member n [] = false
member n (x ∷ xs) = if n == x then true else member n xs

-- A pack size is valid exactly if it is one of those that the shop shows.
valid_pack_size-member : (n : ℕ) → valid_pack_size n ≡ member n all_pack_sizes
unfolding valid_pack_size all_pack_sizes member
valid_pack_size-member n = ground arith

-- What a user sees of the educator, by the paid balance, the counter and the plan's name: a paid
-- balance gives the full analysis and the coach; with none, a free taste is left exactly to a
-- user whose plan is not pro and who has used none.
pub educator_access_level_cases :
    (bs : BillingSnapshot)
    → let e = resolve bs in
      ((0 < bs.paid_balance) ↔ (educator_access_level e ≡ full))
      × ((can_access_coach e ≡ true) ↔ (educator_access_level e ≡ full))
      × ((educator_access_level e ≡ free_taste)
          ↔ ((bs.paid_balance ≡ 0) × (bs.free_full_educators_used ≡ 0) × (bs.plan ≢ "pro")))
unfolding educator_access_level can_access_coach resolve
educator_access_level_cases bs = (
  ground (arith, eq_iff bs.plan "pro", eq_iff bs.plan "free"),
  ground (arith, eq_iff bs.plan "pro", eq_iff bs.plan "free"),
  ground (arith, eq_iff bs.plan "pro", eq_iff bs.plan "free", eq_iff "pro" "free"),
)
