-- ===== src/Session/Lifecycle.antt =====
-- All that may happen to the sessions, as operations that come in any order: the methods of
-- internal/backend, the workers of internal/jobs and the passing of time.
pub mod Steps
pub mod Writes
pub mod Ended
pub mod Exclusive
pub mod Accounts
pub mod Abstract
pub mod Follows
pub mod Refines
use sabermatic_dev.Prelude.{ℕ, ◌+◌, Bool, true, false, List, [], ◌∷◌, if◌then◌else◌}
use sabermatic_dev.Store.Rows.{
  Db, InterviewSession, Status, Job, evaluating, reviewed, evaluation_failed, session_refund,
}
use sabermatic_dev.Store.Sessions.{
  acquire_generating_status, release_generating_status, inline_recover_stale_generating,
  cleanup_stale_generating, update_session_status_only, archive_sessions_bulk,
  cancel_abandoned_empty_sessions, complete_abandoned_active_sessions,
}
use sabermatic_dev.Store.Grants.Refund.{full_refund_session_minutes}
use sabermatic_dev.Session.Create.{CreateSessionParams, create_session}
use sabermatic_dev.Session.End.{complete_session, cancel_session, fail_session, enqueue_evaluation}
use sabermatic_dev.Session.Errors.{Result, ok, err, not_evaluation_failed}
use sabermatic_dev.Session.{get_session_for_user}

pub data Op : Type 0 where
  create : CreateSessionParams → Op
  acquire release recover : ℕ → Op
  cleanup_generating cleanup_abandoned : Op
  complete cancel : ℕ → ℕ → Op
  fail : ℕ → Op
  archive : ℕ → List ℕ → Bool → Op
  mark_evaluating mark_reviewed mark_evaluation_failed : ℕ → Op
  retry_evaluation : ℕ → ℕ → Op
  later : ℕ → Op

-- CleanupAbandonedSessions: refund what is cancelled, then enqueue what is completed.
unfoldable pub refund_all : List InterviewSession → Db → Db
refund_all [] db = db
refund_all (s ∷ ss) db = refund_all ss (full_refund_session_minutes session_refund s.id db).0

unfoldable pub is_evaluation_failed : Status → Bool
is_evaluation_failed evaluation_failed = true
is_evaluation_failed _ = false

module _ (insert_job : Job → List Job → List Job) where
  unfoldable pub enqueue_all : List InterviewSession → Db → Db
  enqueue_all [] db = db
  enqueue_all (s ∷ ss) db = enqueue_all ss (enqueue_evaluation insert_job s.id 2 db)

  unfoldable pub cleanup_abandoned_sessions : Db → Db
  unfolding refund_all enqueue_all
  cleanup_abandoned_sessions db =
      let (db₁, cancelled_rows) = cancel_abandoned_empty_sessions db in
      let (db₂, completed_rows) =
        complete_abandoned_active_sessions (refund_all cancelled_rows db₁) in
      enqueue_all completed_rows db₂

  -- RetryEvaluation
  unfoldable pub retry : ℕ → ℕ → Db → Result (Unit {0}) × Db
  unfolding is_evaluation_failed
  retry id user db = elim (get_session_for_user id user db) [
    | err e ↦ (err e, db)
    | ok session ↦
        if is_evaluation_failed session.status
        then (
          ok tt,
          enqueue_evaluation insert_job id 2 (update_session_status_only id evaluating db),
        )
        else (err not_evaluation_failed, db)
  ]

  unfoldable pub apply : Op → Db → Db
  apply (create p) db = (create_session p db).1
  apply (acquire id) db = (acquire_generating_status id db).0
  apply (release id) db = release_generating_status id db
  apply (recover id) db = inline_recover_stale_generating id db
  apply cleanup_generating db = cleanup_stale_generating db
  apply cleanup_abandoned db = cleanup_abandoned_sessions db
  apply (complete id turns) db = complete_session insert_job id turns db
  apply (cancel id turns) db = cancel_session id turns db
  apply (fail id) db = (fail_session id db).1
  apply (archive user ids b) db = archive_sessions_bulk b ids user db
  apply (mark_evaluating id) db = update_session_status_only id evaluating db
  apply (mark_reviewed id) db = update_session_status_only id reviewed db
  apply (mark_evaluation_failed id) db = update_session_status_only id evaluation_failed db
  apply (retry_evaluation id user) db = (retry id user db).1
  apply (later t) db = record db { now = db.now + t }

  unfoldable pub run : List Op → Db → Db
  run [] db = db
  run (o ∷ os) db = run os (apply o db)
