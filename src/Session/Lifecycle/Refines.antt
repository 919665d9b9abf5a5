-- ===== src/Session/Lifecycle/Refines.antt =====
-- The tables refine the abstract machine: every run of methods, jobs and turns moves every
-- interview along its steps.
use sabermatic_dev.Prelude.{
  ℕ, ◌≡◌, refl, sym, ap, ◌∙◌, inl, inr, true, false, List, [], ◌∷◌, arith, ltb, ◌==◌, Bool-cases,
  Option, some, none,
}
use sabermatic_dev.Store.Rows.{
  Db, InterviewSession, Status, Job, evaluating, reviewed, evaluation_failed, failed,
  session_refund, error_refund,
}
use sabermatic_dev.Store.Sessions
use sabermatic_dev.Store.Sessions.{
  acquire_generating_status, release_generating_status, inline_recover_stale_generating,
  cleanup_stale_generating, update_session_status, update_session_status_only,
  archive_sessions_bulk, cancel_abandoned_empty_sessions, complete_abandoned_active_sessions,
  is_active, find_session,
}
use sabermatic_dev.Session.Rows.{find_session-id}
use sabermatic_dev.Session.End.{complete_session, cancel_session, fail_session, enqueue_evaluation}
use sabermatic_dev.Session.Errors.{Result, ok, err}
use sabermatic_dev.Session.{get_session_for_user}
use sabermatic_dev.Session.Lifecycle.{
  Op, create, acquire, release, recover, cleanup_generating, cleanup_abandoned, complete, cancel,
  fail, archive, mark_evaluating, mark_reviewed, mark_evaluation_failed, retry_evaluation, later,
  refund_all, enqueue_all, cleanup_abandoned_sessions, is_evaluation_failed, retry, apply, run,
}
use sabermatic_dev.Session.Lifecycle.Abstract.{
  Step, completes, cancels, evaluates, reviews, fails_evaluation, here, once, begins, ends,
  fails_active,
}
use sabermatic_dev.Session.Lifecycle.Follows.{
  SameInterview, SameInterview-refl, Follows, Follows-same, Follows-update_where, Follows-refund,
  Follows-full_refund, Follows-create_session,
}

-- A change of the columns that may change.
changed :
    (s t : InterviewSession)
    → t.id ≡ s.id
    → t.user ≡ s.user
    → t.question ≡ s.question
    → t.config_duration_minutes ≡ s.config_duration_minutes
    → t.reserved_minutes ≡ s.reserved_minutes
    → t.started_at ≡ s.started_at
    → SameInterview s t
changed s t a b c d e f = record {
  id = a;
  user = b;
  question = c;
  minutes = d;
  reserved = e;
  started = f;
}

-- Two ids that find rows of one id find the same row.
same_status :
    (id session : ℕ) (ss : List InterviewSession) (s t : InterviewSession)
    → find_session session ss ≡ some s
    → find_session id ss ≡ some t
    → (t.id == session) ≡ true
    → is_active s.status ≡ true
    → is_active t.status ≡ true
same_status id session ss s t first second hit h =
    let same : session ≡ id = ground (arith, hit, find_session-id id ss t second) in
    let rows : some s ≡ some t = sym first ∙ ap (λ n. find_session n ss) same ∙ second in
    sym (
      ap (λ (o : Option InterviewSession). elim o [ none ↦ false | some x ↦ is_active x.status ])
        rows)
    ∙ h

module _ (insert_job : Job → List Job → List Job) (id : ℕ) (origin : InterviewSession) where
  Follows-enqueued :
      (session turns : ℕ) {db : Db}
      → Follows id origin db
      → Follows id origin (enqueue_evaluation insert_job session turns db)
  unfolding enqueue_evaluation
  Follows-enqueued session turns h = elim (Bool-cases (ltb 1 turns)) [
    | inl yes_many ↦ rw yes_many (Follows-same id origin refl h)
    | inr few ↦ rw few h
  ]

  Follows-status :
      (session : ℕ) (status : Status) {db : Db}
      → ((s : Status) → Step s status)
      → Follows id origin db
      → Follows id origin (update_session_status_only session status db)
  unfolding update_session_status_only
  Follows-status session status any h =
      Follows-update_where id origin _ _ (λ s. changed s _ refl refl refl refl refl refl)
        (λ s found hit. once (any s.status)) h

  Follows-refund_all :
      (ss : List InterviewSession) {db : Db}
      → Follows id origin db
      → Follows id origin (refund_all ss db)
  unfolding refund_all
  Follows-refund_all [] h = h
  Follows-refund_all (s ∷ ss) h =
      Follows-refund_all ss (Follows-full_refund id origin session_refund s.id h)

  Follows-enqueue_all :
      (ss : List InterviewSession) {db : Db}
      → Follows id origin db
      → Follows id origin (enqueue_all insert_job ss db)
  unfolding enqueue_all
  Follows-enqueue_all [] h = h
  Follows-enqueue_all (s ∷ ss) h = Follows-enqueue_all ss (Follows-enqueued s.id 2 h)

  Follows-cancelled :
      {db : Db} → Follows id origin db → Follows id origin (cancel_abandoned_empty_sessions db).0
  unfolding cancel_abandoned_empty_sessions
  Follows-cancelled h =
      Follows-update_where id origin _ _ (λ s. changed s _ refl refl refl refl refl refl)
        (λ s found hit. once cancels) h

  Follows-completed :
      {db : Db} → Follows id origin db → Follows id origin (complete_abandoned_active_sessions db).0
  unfolding complete_abandoned_active_sessions
  Follows-completed h =
      Follows-update_where id origin _ _ (λ s. changed s _ refl refl refl refl refl refl)
        (λ s found hit. once completes) h

  Follows-abandoned :
      {db : Db}
      → Follows id origin db
      → Follows id origin (cleanup_abandoned_sessions insert_job db)
  unfolding cleanup_abandoned_sessions
  Follows-abandoned {db} h =
      let cancelled_rows = (cancel_abandoned_empty_sessions db).1 in
      Follows-enqueue_all
        (complete_abandoned_active_sessions
          (refund_all cancelled_rows (cancel_abandoned_empty_sessions db).0)).1
        (Follows-completed (Follows-refund_all cancelled_rows (Follows-cancelled h)))

  -- FailSession writes `failed` after it has read `active` in the row of this id.
  Follows-failed :
      (session : ℕ) (s : InterviewSession) {db : Db}
      → find_session session db.sessions ≡ some s
      → is_active s.status ≡ true
      → Follows id origin db
      → Follows id origin (update_session_status_only session failed db)
  unfolding update_session_status_only
  Follows-failed session s e yes_active =
      Follows-update_where id origin _ _ (λ t. changed t _ refl refl refl refl refl refl)
        (λ t found hit.
          once (fails_active t.status (same_status id session _ s t e found hit yes_active)))

  Follows-fail :
      (session : ℕ) {db : Db} → Follows id origin db → Follows id origin (fail_session session db).1
  unfolding fail_session
  Follows-fail session {db} h = go (find_session session db.sessions) refl
    where
      go :
          (o : Option InterviewSession)
          → find_session session db.sessions ≡ o
          → Follows id origin (fail_session session db).1
      go none e = rw (e, fail_session) h
      go (some s) e = elim (Bool-cases (is_active s.status)) [
        | inl yes_active ↦
            rw (e, fail_session, yes_active)
              (Follows-full_refund id origin error_refund session
                (Follows-failed session s e yes_active h))
        | inr not_active ↦ rw (e, fail_session, not_active) h
      ]

  Follows-retry :
      (session user : ℕ) {db : Db}
      → Follows id origin db
      → Follows id origin (retry insert_job session user db).1
  unfolding retry
  Follows-retry session user {db} h = go (get_session_for_user session user db) refl
    where
      go :
          (r : Result InterviewSession)
          → get_session_for_user session user db ≡ r
          → Follows id origin (retry insert_job session user db).1
      go (err x) e = rw (e, retry) h
      go (ok s) e = elim (Bool-cases (is_evaluation_failed s.status)) [
        | inl has_failed ↦
            rw (e, retry, has_failed)
              (Follows-enqueued session 2 (Follows-status session evaluating (λ s. evaluates) h))
        | inr has_not ↦ rw (e, retry, has_not) h
      ]

  Follows-apply :
      (o : Op) (db : Db) → Follows id origin db → Follows id origin (apply insert_job o db)
  unfolding apply acquire_generating_status release_generating_status
      inline_recover_stale_generating cleanup_stale_generating archive_sessions_bulk
      complete_session update_session_status cancel_session Sessions.cancel_session
  Follows-apply (create p) db h = Follows-create_session id origin p h
  Follows-apply (acquire session) db h =
      Follows-update_where id origin _ _ (λ s. changed s _ refl refl refl refl refl refl)
        (λ s found hit. once (begins s.status (ground (arith, hit)))) h
  Follows-apply (release session) db h =
      Follows-update_where id origin _ _ (λ s. changed s _ refl refl refl refl refl refl)
        (λ s found hit. once (ends s.status (ground (arith, hit)))) h
  Follows-apply (recover session) db h =
      Follows-update_where id origin _ _ (λ s. changed s _ refl refl refl refl refl refl)
        (λ s found hit. once (ends s.status (ground (arith, hit)))) h
  Follows-apply cleanup_generating db h =
      Follows-update_where id origin _ _ (λ s. changed s _ refl refl refl refl refl refl)
        (λ s found hit. once (ends s.status (ground (arith, hit)))) h
  Follows-apply cleanup_abandoned db h = Follows-abandoned h
  Follows-apply (complete session turns) db h = Follows-enqueued session turns (
      Follows-refund id origin session (
        Follows-update_where id origin _ _ (λ s. changed s _ refl refl refl refl refl refl)
          (λ s found hit. once completes) h))
  Follows-apply (cancel session turns) db h = Follows-refund id origin session (
      Follows-update_where id origin _ _ (λ s. changed s _ refl refl refl refl refl refl)
        (λ s found hit. once cancels) h)
  Follows-apply (fail session) db h = Follows-fail session h
  Follows-apply (archive user ids b) db h =
      Follows-update_where id origin _ _ (λ s. changed s _ refl refl refl refl refl refl)
        (λ s found hit. here) h
  Follows-apply (mark_evaluating session) db h =
      Follows-status session evaluating (λ s. evaluates) h
  Follows-apply (mark_reviewed session) db h = Follows-status session reviewed (λ s. reviews) h
  Follows-apply (mark_evaluation_failed session) db h =
      Follows-status session evaluation_failed (λ s. fails_evaluation) h
  Follows-apply (retry_evaluation session user) db h = Follows-retry session user h
  Follows-apply (later t) db h = Follows-same id origin refl h

  Follows-run :
      (os : List Op) (db : Db) → Follows id origin db → Follows id origin (run insert_job os db)
  unfolding run
  Follows-run [] db h = h
  Follows-run (o ∷ os) db h = Follows-run os (apply insert_job o db) (Follows-apply o db h)

  -- Whatever methods, turns and jobs run, in whatever order, the row of an interview is never lost:
  -- it keeps its user, question, reserved minutes, length and start, and the status it has then is
  -- within reach of the status it had, by steps of the abstract machine alone.
  pub run-Follows :
      (os : List Op) (db : Db)
      → find_session id db.sessions ≡ some origin
      → Follows id origin (run insert_job os db)
  run-Follows os db found =
      Follows-run os db
        (record { row = origin; found = found; same = SameInterview-refl origin; reach = here })
