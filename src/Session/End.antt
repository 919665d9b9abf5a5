-- ===== src/Session/End.antt =====
-- internal/backend/session.go: CompleteSession, CancelSession, FailSession and the wait for a
-- running generation.
use sabermatic_dev.Prelude.{ℕ, zero, suc, ◌+◌, not, List, ltb, if◌then◌else◌, Option, some, none}
use sabermatic_dev.Store.Rows.{Db, Job, completed, failed, error_refund, evaluate_session}
use sabermatic_dev.Store.Sessions
use sabermatic_dev.Store.Sessions.{
  find_session, is_active, is_generating, is_stale, update_session_status,
  update_session_status_only, inline_recover_stale_generating,
}
use sabermatic_dev.Store.Grants.Refund.{refund_session_minutes, full_refund_session_minutes}
use sabermatic_dev.Store.Messages.{count_interviewer_messages}
use sabermatic_dev.Session.Errors.{
  Result, ok, err, session_not_active, wait_timed_out, context_done, internal,
}

-- River's InsertTx adds a job, unless one with the same arguments is waiting: a parameter.
module _ (insert_job : Job → List Job → List Job) where
  unfoldable pub enqueue_evaluation : ℕ → ℕ → Db → Db
  enqueue_evaluation id turns db =
      if ltb 1 turns then record db { jobs = insert_job (evaluate_session id) db.jobs } else db

  unfoldable pub complete_session : ℕ → ℕ → Db → Db
  unfolding enqueue_evaluation
  complete_session id turns db =
      let db' = update_session_status id completed turns db in
      enqueue_evaluation id turns (refund_session_minutes id db').0

unfoldable pub cancel_session : ℕ → ℕ → Db → Db
cancel_session id turns db = (refund_session_minutes id (Sessions.cancel_session id turns db)).0

unfoldable pub fail_session : ℕ → Db → Result (Unit {0}) × Db
fail_session id db = elim (find_session id db.sessions) [
  | none ↦ (err internal, db)
  | some session ↦
      if is_active session.status
      then (
        ok tt,
        (full_refund_session_minutes error_refund id (update_session_status_only id failed db)).0,
      )
      else (err session_not_active, db)
]

-- One look at the status: the wait is over with a result, or goes on after a recovery.
pub data Poll : Type 0 where
  over : Result (Unit {0}) → Poll
  again : Poll

unfoldable pub poll : ℕ → ℕ → Db → Poll × Db
poll deadline id db =
    if ltb deadline db.now
    then (over (err wait_timed_out), db)
    else elim (find_session id db.sessions) [
      | none ↦ (over (err internal), db)
      | some session ↦
          if not (is_generating session.status)
          then (over (ok tt), db)
          else if is_stale db.now session
          then (again, inline_recover_stale_generating id db)
          else (again, db)
    ]

-- `pause` is what happens between two polls: time passes and others write; `none` if the context
-- is done. The loop is on fuel: at half a second a poll, 121 polls pass the deadline.
module _ (pause : Db → Option Db) where
  unfoldable pub resume :
      (Db → Option (Result (Unit {0}) × Db)) → Db → Option Db → Option (Result (Unit {0}) × Db)
  resume loop db none = some (err context_done, db)
  resume loop db (some db') = loop db'

  -- After a poll: the result, or a pause and the rest of the loop.
  unfoldable pub proceed :
      (Db → Option (Result (Unit {0}) × Db)) → Poll × Db → Option (Result (Unit {0}) × Db)
  unfolding resume
  proceed loop (over r, db) = some (r, db)
  proceed loop (again, db) = resume loop db (pause db)

  unfoldable pub wait_loop : ℕ → ℕ → ℕ → Db → Option (Result (Unit {0}) × Db)
  unfolding poll proceed
  wait_loop zero deadline id db = none
  wait_loop (suc fuel) deadline id db = proceed (wait_loop fuel deadline id) (poll deadline id db)

  abbrev pub poll_fuel : ℕ
  poll_fuel = 122

  unfoldable pub wait_for_generation : ℕ → Db → Option (Result (Unit {0}) × Db)
  unfolding wait_loop
  wait_for_generation id db = wait_loop poll_fuel (db.now + 60000000) id db

  unfoldable pub after_wait :
      (Db → Db) → Option (Result (Unit {0}) × Db) → Option (Result (Unit {0}) × Db)
  after_wait f none = none
  after_wait f (some (err e, db)) = some (err e, db)
  after_wait f (some (ok u, db)) = some (ok u, f db)

  unfoldable pub wait_and_complete_session :
      (Job → List Job → List Job) → ℕ → Db → Option (Result (Unit {0}) × Db)
  unfolding after_wait
  wait_and_complete_session insert_job id db =
      after_wait (λ d. complete_session insert_job id (count_interviewer_messages id d) d)
        (wait_for_generation id db)

  unfoldable pub wait_and_cancel_session : ℕ → Db → Option (Result (Unit {0}) × Db)
  unfolding after_wait
  wait_and_cancel_session id db =
      after_wait (λ d. cancel_session id (count_interviewer_messages id d) d)
        (wait_for_generation id db)
