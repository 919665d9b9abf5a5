-- ===== src/Tests/Coaches.antt =====
-- The theorem on the coach at concrete data.
use sabermatic_dev.Prelude.{true, List, [], ◌∷◌, ◌++◌, none, some}
use sabermatic_dev.Store.Rows.{Db, Job, reviewed, purchase}
use sabermatic_dev.Store.Grants.Balance
use sabermatic_dev.Webhook.Atoi.{codes}
use sabermatic_dev.Coach.{CoachEnv, run_coach_job}
use sabermatic_dev.Tests.Data.{store, interview, trial}

abbrev later_job : Job → List Job → List Job
later_job job jobs = jobs ++ job ∷ []

abbrev coach_env : CoachEnv
coach_env = record {
  unmarshal = λ raw. some (record {
    summary = "";
    narrative = raw;
    weakest_dimension = "depth";
    improving_dimensions = none;
    topic_gaps = some ("queues" ∷ []);
    generated_question = some (record {
      title = "A queue";
      prompt = "Design a queue.";
      difficulty = "hard";
      tags = none;
    });
  });
  bytes = codes;
  is_utf8 = λ bytes. true;
  insert_job = later_job;
}

-- Alice has bought minutes, and her session is reviewed.
abbrev paid_store : Db
paid_store = record (store (interview reviewed ∷ [])) {
  grants = trial ∷ (record trial { id = 8; source = purchase }) ∷ [];
}

abbrev analysed_store : Db
analysed_store = (run_coach_job coach_env 1 (some "Go deeper.") paid_store).1
