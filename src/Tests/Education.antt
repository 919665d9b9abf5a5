-- ===== src/Tests/Education.antt =====
-- The theorems on model answers at concrete data.
use sabermatic_dev.Prelude.{ℕ, refl, some, [], ◌∷◌}
use sabermatic_dev.Billing.{
  Entitlements, free_plan, educator_access_level, resolve, plan_or_free, plan_by_name,
}
use sabermatic_dev.Store.Rows.{Db, reviewed, analysis_completed}
use sabermatic_dev.Store.Sessions.{find_session}
use sabermatic_dev.Store.Grants.Balance
use sabermatic_dev.Store.Grants.Balance.{
  get_billing_snapshot, both, int4, sum_where, counts, counts_paid, is_free,
}
use sabermatic_dev.Store.Grants.Shares.{is_live}
use sabermatic_dev.Store.Educators.{get_educator_analysis_by_session, find_educator}
use sabermatic_dev.Session.{get_session, get_session_for_user}
use sabermatic_dev.Session.Create.{check}
use sabermatic_dev.Education.{
  has_completed, is_reviewed, is_preview, get_educator_analysis, show_analysis, show_status,
  show_completed, truncate_runes, text_of,
}
use sabermatic_dev.Education.Preview.{IsReader, get_educator_analysis-IsReader}
use sabermatic_dev.Tests.Data.{store, interview, alice}

-- Alice's entitlements after so many free tastes.
abbrev entitled : ℕ → Entitlements
entitled used = record {
  plan = free_plan;
  total_balance = 60;
  paid_balance = 0;
  free_educator_used = used;
}

abbrev fresh : Db
fresh = store (interview reviewed ∷ [])

-- The taste is spent and the answer is there.
abbrev answered_store : Db
answered_store = record fresh {
  users = (record alice { free_full_educators_used = 1 }) ∷ [];
  educator_analyses =
      (record {
        id = 9;
        session = 5;
        status = analysis_completed;
        model_answer = some "Begin with the requirements.";
        gap_deep_dives = some "Replication.";
        created_at = 950;
      })
      ∷ [];
}

get_educator_analysis-IsReader_example :
    IsReader 5 1 answered_store (has_completed 9 "Begin with the requirements." "")
unfolding get_educator_analysis get_session_for_user get_session find_session is_reviewed is_preview
    check get_billing_snapshot Balance.find_user both int4 sum_where counts counts_paid is_free
    is_live resolve plan_or_free plan_by_name educator_access_level show_analysis show_status
    show_completed truncate_runes text_of get_educator_analysis_by_session find_educator
get_educator_analysis-IsReader_example =
    get_educator_analysis-IsReader 5 1 answered_store
      (has_completed 9 "Begin with the requirements." "") refl
