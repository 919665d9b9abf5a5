-- ===== src/Session/Lifecycle/Accounts.antt =====
-- The ledger's invariant through the whole life of sessions.
use sabermatic_dev.Prelude.{
  ◌+◌, ℕ, ◌+◌, ◌≡◌, refl, inl, inr, List, [], ◌∷◌, ltb, Bool-cases, Option, some, none,
}
use sabermatic_dev.Store.Rows.{
  Db, InterviewSession, Status, Job, evaluating, completed, reviewed, evaluation_failed, failed,
  session_refund, error_refund,
}
use sabermatic_dev.Store.Sessions
use sabermatic_dev.Store.Sessions.{
  release_generating_status, inline_recover_stale_generating, cleanup_stale_generating,
  acquire_generating_status, update_session_status, update_session_status_only,
  archive_sessions_bulk, cancel_abandoned_empty_sessions, complete_abandoned_active_sessions,
  is_active, find_session,
}
use sabermatic_dev.Session.End.{complete_session, cancel_session, fail_session, enqueue_evaluation}
use sabermatic_dev.Session.Errors.{Result, ok, err}
use sabermatic_dev.Session.{get_session_for_user}
use sabermatic_dev.Session.Lifecycle.{
  run, Op, create, acquire, release, recover, cleanup_generating, cleanup_abandoned, complete,
  cancel, fail, archive, mark_evaluating, mark_reviewed, mark_evaluation_failed, retry_evaluation,
  later, refund_all, enqueue_all, cleanup_abandoned_sessions, is_evaluation_failed, retry, apply,
}
use sabermatic_dev.Ledger.Books.{IsBooked}
use sabermatic_dev.Ledger.Refund.Bounds.{
  refund_session_minutes-IsBooked, full_refund_session_minutes-IsBooked,
}
use sabermatic_dev.Session.Create.{
  CreateSessionParams, create_session, validate, insert_and_reserve,
}
use sabermatic_dev.Session.Reservation.{create_session_charges}

-- A write that leaves grants and ledger alone.
same_books :
    {db : Db} (jobs : List Job) (sessions : List InterviewSession) (now : ℕ)
    → IsBooked db
    → IsBooked (record db { jobs = jobs; sessions = sessions; now = now })
same_books jobs sessions now b = record {
  balanced = b.balanced;
  within = b.within;
  distinct = b.distinct;
  old_grants = b.old_grants;
  old_entries = b.old_entries;
}

IsBooked-status :
    (session : ℕ) (status : Status) {db : Db}
    → IsBooked db
    → IsBooked (update_session_status_only session status db)
unfolding update_session_status_only
IsBooked-status session status b = same_books _ _ _ b

IsBooked-cancelled : {db : Db} → IsBooked db → IsBooked (cancel_abandoned_empty_sessions db).0
unfolding cancel_abandoned_empty_sessions
IsBooked-cancelled b = same_books _ _ _ b

IsBooked-completed : {db : Db} → IsBooked db → IsBooked (complete_abandoned_active_sessions db).0
unfolding complete_abandoned_active_sessions
IsBooked-completed b = same_books _ _ _ b

IsBooked-ended :
    (session turns : ℕ) (status : Status) {db : Db}
    → IsBooked db
    → IsBooked (update_session_status session status turns db)
unfolding update_session_status
IsBooked-ended session turns status b = same_books _ _ _ b

IsBooked-cancel_session :
    (session turns : ℕ) {db : Db}
    → IsBooked db
    → IsBooked (Sessions.cancel_session session turns db)
unfolding Sessions.cancel_session
IsBooked-cancel_session session turns b = same_books _ _ _ b

IsBooked-create :
    (p : CreateSessionParams) (db : Db) → IsBooked db → IsBooked (create_session p db).1
unfolding create_session
IsBooked-create p db b = go (validate p db) refl
  where
    go : (v : Result ℕ) → validate p db ≡ v → IsBooked (create_session p db).1
    go (err x) e = rw (create_session, e, insert_and_reserve) b
    go (ok d) e = let (s, db', made, c) = create_session_charges p db b d e in rw made c.booked

module _ (insert_job : Job → List Job → List Job) where
  IsBooked-enqueued :
      (session turns : ℕ) {db : Db}
      → IsBooked db
      → IsBooked (enqueue_evaluation insert_job session turns db)
  unfolding enqueue_evaluation
  IsBooked-enqueued session turns {db} b = elim (Bool-cases (ltb 1 turns)) [
    | inl yes_many ↦ rw yes_many (same_books _ db.sessions db.now b)
    | inr few ↦ rw few b
  ]

  IsBooked-refund_all :
      (ss : List InterviewSession) {db : Db} → IsBooked db → IsBooked (refund_all ss db)
  unfolding refund_all
  IsBooked-refund_all [] b = b
  IsBooked-refund_all (s ∷ ss) {db} b =
      IsBooked-refund_all ss (full_refund_session_minutes-IsBooked session_refund s.id db b)

  IsBooked-enqueue_all :
      (ss : List InterviewSession) {db : Db} → IsBooked db → IsBooked (enqueue_all insert_job ss db)
  unfolding enqueue_all
  IsBooked-enqueue_all [] b = b
  IsBooked-enqueue_all (s ∷ ss) b = IsBooked-enqueue_all ss (IsBooked-enqueued s.id 2 b)

  IsBooked-abandoned : {db : Db} → IsBooked db → IsBooked (cleanup_abandoned_sessions insert_job db)
  unfolding cleanup_abandoned_sessions
  IsBooked-abandoned {db} b =
      let cancelled_rows = (cancel_abandoned_empty_sessions db).1 in
      IsBooked-enqueue_all
        (complete_abandoned_active_sessions
          (refund_all cancelled_rows (cancel_abandoned_empty_sessions db).0)).1
        (IsBooked-completed (IsBooked-refund_all cancelled_rows (IsBooked-cancelled b)))

  IsBooked-fail : (session : ℕ) {db : Db} → IsBooked db → IsBooked (fail_session session db).1
  unfolding fail_session
  IsBooked-fail session {db} b = go (find_session session db.sessions) refl
    where
      go :
          (o : Option InterviewSession)
          → find_session session db.sessions ≡ o
          → IsBooked (fail_session session db).1
      go none e = rw (e, fail_session) b
      go (some s) e = elim (Bool-cases (is_active s.status)) [
        | inl yes_active ↦
            rw (e, fail_session, yes_active)
              (full_refund_session_minutes-IsBooked error_refund session
                (update_session_status_only session failed db) (IsBooked-status session failed b))
        | inr not_active ↦ rw (e, fail_session, not_active) b
      ]

  IsBooked-retry :
      (session user : ℕ) {db : Db} → IsBooked db → IsBooked (retry insert_job session user db).1
  unfolding retry
  IsBooked-retry session user {db} b = go (get_session_for_user session user db) refl
    where
      go :
          (r : Result InterviewSession)
          → get_session_for_user session user db ≡ r
          → IsBooked (retry insert_job session user db).1
      go (err x) e = rw (e, retry) b
      go (ok s) e = elim (Bool-cases (is_evaluation_failed s.status)) [
        | inl has_failed ↦
            rw (e, retry, has_failed)
              (IsBooked-enqueued session 2 (IsBooked-status session evaluating b))
        | inr has_not ↦ rw (e, retry, has_not) b
      ]

  IsBooked-apply : (o : Op) (db : Db) → IsBooked db → IsBooked (apply insert_job o db)
  unfolding apply acquire_generating_status release_generating_status
      inline_recover_stale_generating cleanup_stale_generating archive_sessions_bulk
      complete_session cancel_session
  IsBooked-apply (create p) db b = IsBooked-create p db b
  IsBooked-apply (acquire session) db b = same_books _ _ _ b
  IsBooked-apply (release session) db b = same_books _ _ _ b
  IsBooked-apply (recover session) db b = same_books _ _ _ b
  IsBooked-apply cleanup_generating db b = same_books _ _ _ b
  IsBooked-apply cleanup_abandoned db b = IsBooked-abandoned b
  IsBooked-apply (complete session turns) db b =
      IsBooked-enqueued session turns
        (refund_session_minutes-IsBooked session _ (IsBooked-ended session turns completed b))
  IsBooked-apply (cancel session turns) db b =
      refund_session_minutes-IsBooked session _ (IsBooked-cancel_session session turns b)
  IsBooked-apply (fail session) db b = IsBooked-fail session b
  IsBooked-apply (archive user ids x) db b = same_books _ _ _ b
  IsBooked-apply (mark_evaluating session) db b = IsBooked-status session evaluating b
  IsBooked-apply (mark_reviewed session) db b = IsBooked-status session reviewed b
  IsBooked-apply (mark_evaluation_failed session) db b = IsBooked-status session evaluation_failed b
  IsBooked-apply (retry_evaluation session user) db b = IsBooked-retry session user b
  IsBooked-apply (later t) db b = same_books db.jobs db.sessions (db.now + t) b

  -- If the books are right, they stay so through the whole life of sessions: whatever methods and
  -- jobs run, in whatever order, and however often a session is ended, failed or refunded.
  pub run-IsBooked : (os : List Op) (db : Db) → IsBooked db → IsBooked (run insert_job os db)
  unfolding run
  run-IsBooked [] db b = b
  run-IsBooked (o ∷ os) db b = run-IsBooked os (apply insert_job o db) (IsBooked-apply o db b)
