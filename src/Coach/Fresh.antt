-- ===== src/Coach/Fresh.antt =====
-- What is known after the job: the user reads the analysis that it stored, and a new one is made
-- only for other sessions.
use sabermatic_dev.Prelude.{ℕ, ◌≡◌, ◌≢◌, ◌⊎◌, false, List, Option, some, String}
use sabermatic_dev.Store.Rows.{Db, Job, run_coach_analysis}
use sabermatic_dev.Store.Coaches
use sabermatic_dev.Store.Coaches.{get_reviewed_session_ids_for_user}
use sabermatic_dev.Session.Errors.{ok, err, no_new_sessions}
use sabermatic_dev.Evaluation.Coach.{CoachResult, parse_analysis}
use sabermatic_dev.Coach.{CoachResponse, CoachEnv, request_coach_analysis, of_analysis}

-- What the user reads is what the model handed in, on the sessions `ids`.
pub record IsHandedIn (env : CoachEnv) (user : ℕ) (ids : List ℕ) (reply : Option String)
    (r : CoachResponse) : Type 0 where
  pub raw : String
  pub result : CoachResult
  pub replied : reply ≡ some raw
  pub accepted : of_analysis (parse_analysis env.unmarshal raw) ≡ ok result
  pub user_id : r.user ≡ user
  pub summary : r.summary ≡ result.summary
  pub narrative : r.narrative ≡ result.narrative
  pub weakest_dimension : r.weakest_dimension ≡ result.weakest_dimension
  pub improving_dimensions : r.improving_dimensions ≡ result.improving_dimensions
  pub topic_gaps : r.topic_gaps ≡ result.topic_gaps
  pub sessions_analyzed : r.sessions_analyzed ≡ ids

-- An analysis is asked for again exactly if the reviewed sessions are others.
abbrev pub AsksForNews : (Job → List Job → List Job) → ℕ → List ℕ → Db → Type 0
AsksForNews insert_job user ids d =
    ((get_reviewed_session_ids_for_user user d ≡ ids)
      × (request_coach_analysis insert_job user false d ≡ (err no_new_sessions, d)))
    ⊎ ((get_reviewed_session_ids_for_user user d ≢ ids)
        × (request_coach_analysis insert_job user false d
            ≡ (ok tt, record d { jobs = insert_job (run_coach_analysis user) d.jobs })))
