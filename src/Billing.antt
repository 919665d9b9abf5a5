-- ===== src/Billing.antt =====
-- internal/billing: the plans, the pack sizes and the entitlements of a user.
-- Balances, counters and limits are sums and counts of the database, so they are naturals; a
-- duration reaches these functions only after `CreateSession` has found it to be at least 1.
pub mod Policy
use sabermatic_dev.Prelude.{
  ℕ, Bool, true, false, ◌&&◌, ◌||◌, Option, none, some, List, [], ◌∷◌, String, str_eq, ltb, leb,
  ◌==◌, if◌then◌else◌,
}

pub data EducatorAccessLevel : Type 0 where
  preview full free_taste : EducatorAccessLevel

pub record Plan : Type 0 where
  pub name : String
  pub grant_minutes : ℕ
  pub max_duration_minutes : ℕ
  pub concurrent_sessions : ℕ
  pub coach_access : Bool
  pub educator_access : EducatorAccessLevel
  pub free_educator_limit : ℕ

-- The two entries of the map `plans`.
abbrev pub free_plan : Plan
free_plan = record {
  name = "Free";
  grant_minutes = 60;
  max_duration_minutes = 30;
  concurrent_sessions = 1;
  coach_access = false;
  educator_access = preview;
  free_educator_limit = 1;
}

abbrev pub pro_plan : Plan
pro_plan = record {
  name = "Pro";
  grant_minutes = 600;
  max_duration_minutes = 180;
  concurrent_sessions = 3;
  coach_access = true;
  educator_access = full;
  free_educator_limit = 0;
}

unfoldable pub plan_by_name : String → Option Plan
plan_by_name name =
    if str_eq name "free" then some free_plan else if str_eq name "pro" then some pro_plan else none

unfoldable pub free_trial_minutes : ℕ
free_trial_minutes = free_plan.grant_minutes

unfoldable pub valid_pack_size : ℕ → Bool
valid_pack_size minutes = minutes == 120 || minutes == 300 || minutes == 600

unfoldable pub all_pack_sizes : List ℕ
all_pack_sizes = 120 ∷ 300 ∷ 600 ∷ []

pub record BillingSnapshot : Type 0 where
  pub plan : String
  pub free_full_educators_used : ℕ
  pub total_balance : ℕ
  pub paid_balance : ℕ

pub record Entitlements : Type 0 where
  pub plan : Plan
  pub total_balance : ℕ
  pub paid_balance : ℕ
  pub free_educator_used : ℕ

unfoldable pub plan_or_free : Option Plan → Plan
plan_or_free none = free_plan
plan_or_free (some p) = p

unfoldable pub resolve : BillingSnapshot → Entitlements
unfolding plan_by_name plan_or_free
resolve bs = record {
  plan = plan_or_free (plan_by_name bs.plan);
  total_balance = bs.total_balance;
  paid_balance = bs.paid_balance;
  free_educator_used = bs.free_full_educators_used;
}

unfoldable pub can_start_session : Entitlements → ℕ → Bool
can_start_session e duration =
    leb duration e.plan.max_duration_minutes && leb duration e.total_balance

unfoldable pub duration_allowed : Entitlements → ℕ → Bool
duration_allowed e duration = leb duration e.plan.max_duration_minutes

unfoldable pub balance_sufficient : Entitlements → ℕ → Bool
balance_sufficient e duration = leb duration e.total_balance

unfoldable pub concurrent_sessions_allowed : Entitlements → ℕ → Bool
concurrent_sessions_allowed e active = ltb active e.plan.concurrent_sessions

unfoldable pub can_access_coach : Entitlements → Bool
can_access_coach e = ltb 0 e.paid_balance

unfoldable pub educator_access_level : Entitlements → EducatorAccessLevel
educator_access_level e =
    if ltb 0 e.paid_balance
    then full
    else if ltb e.free_educator_used e.plan.free_educator_limit
    then free_taste
    else preview
