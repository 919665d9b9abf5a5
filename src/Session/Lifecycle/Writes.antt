-- ===== src/Session/Lifecycle/Writes.antt =====
-- One operation that is no step of a turn: sessions of one id get no status of `bad`, a set of
-- statuses in which a turn is possible or runs.
use sabermatic_dev.Prelude.{
  ℕ, true, ◌≡◌, refl, inl, inr, Bool, false, ◌&&◌, ◌||◌, List, [], ◌∷◌, arith, ltb, ◌==◌, All,
  Bool-cases, select, Option, some, none,
}
use sabermatic_dev.Store.Rows.{
  Db, InterviewSession, Status, Job, evaluating, completed, cancelled, reviewed, evaluation_failed,
  failed, session_refund, error_refund,
}
use sabermatic_dev.Store.Sessions
use sabermatic_dev.Store.Sessions.{
  acquire_generating_status, update_session_status, update_session_status_only,
  archive_sessions_bulk, cancel_abandoned_empty_sessions, complete_abandoned_active_sessions,
  is_active, is_generating, find_session,
}
use sabermatic_dev.Session.End.{complete_session, cancel_session, fail_session, enqueue_evaluation}
use sabermatic_dev.Session.Errors.{Result, ok, err}
use sabermatic_dev.Session.{get_session_for_user}
use sabermatic_dev.Session.Lifecycle.{
  Op, create, acquire, release, recover, cleanup_generating, cleanup_abandoned, complete, cancel,
  fail, archive, mark_evaluating, mark_reviewed, mark_evaluation_failed, retry_evaluation, later,
  refund_all, enqueue_all, cleanup_abandoned_sessions, is_evaluation_failed, retry, apply,
}
use sabermatic_dev.Session.Lifecycle.Steps.{
  Avoids, Avoids-update_where, Avoids-refund, Avoids-full_refund, Avoids-create_session,
}

-- The session can still take a turn, now or when its reply is there.
unfoldable pub is_live : Status → Bool
unfolding is_active is_generating
is_live s = is_active s || is_generating s

unfoldable pub is_turn : Op → Bool
is_turn (acquire id) = true
is_turn (release id) = true
is_turn (recover id) = true
is_turn cleanup_generating = true
is_turn _ = false

module _ (insert_job : Job → List Job → List Job) (bad : Status → Bool)
    (dead : (s : Status) → is_live s ≡ false → bad s ≡ false) (id : ℕ) where
  Avoids-enqueued :
      (session turns : ℕ) {db : Db}
      → Avoids bad id db
      → Avoids bad id (enqueue_evaluation insert_job session turns db)
  unfolding enqueue_evaluation
  Avoids-enqueued session turns h = elim (Bool-cases (ltb 1 turns)) [
    | inl yes_many ↦ rw yes_many (record { given = h.given; rows = h.rows })
    | inr few ↦ rw few h
  ]

  -- A write of a status that is not live.
  Avoids-status :
      (session : ℕ) (status : Status) {db : Db}
      → bad status ≡ false
      → Avoids bad id db
      → Avoids bad id (update_session_status_only session status db)
  unfolding update_session_status_only
  Avoids-status session status dead h =
      Avoids-update_where bad id _ _ (λ s. refl) (λ s same old hit. dead) h

  Avoids-refund_all :
      (ss : List InterviewSession) {db : Db} → Avoids bad id db → Avoids bad id (refund_all ss db)
  unfolding refund_all
  Avoids-refund_all [] h = h
  Avoids-refund_all (s ∷ ss) h =
      Avoids-refund_all ss (Avoids-full_refund bad id session_refund s.id h)

  Avoids-enqueue_all :
      (ss : List InterviewSession) {db : Db}
      → Avoids bad id db
      → Avoids bad id (enqueue_all insert_job ss db)
  unfolding enqueue_all
  Avoids-enqueue_all [] h = h
  Avoids-enqueue_all (s ∷ ss) h = Avoids-enqueue_all ss (Avoids-enqueued s.id 2 h)

  Avoids-cancelled :
      {db : Db} → Avoids bad id db → Avoids bad id (cancel_abandoned_empty_sessions db).0
  unfolding cancel_abandoned_empty_sessions is_live
  Avoids-cancelled h =
      Avoids-update_where bad id _ _ (λ s. refl) (λ s same old hit. dead cancelled refl) h

  Avoids-completed :
      {db : Db} → Avoids bad id db → Avoids bad id (complete_abandoned_active_sessions db).0
  unfolding complete_abandoned_active_sessions is_live
  Avoids-completed h =
      Avoids-update_where bad id _ _ (λ s. refl) (λ s same old hit. dead completed refl) h

  Avoids-abandoned :
      {db : Db} → Avoids bad id db → Avoids bad id (cleanup_abandoned_sessions insert_job db)
  unfolding cleanup_abandoned_sessions
  Avoids-abandoned {db} h =
      let cancelled_rows = (cancel_abandoned_empty_sessions db).1 in
      Avoids-enqueue_all
        (complete_abandoned_active_sessions
          (refund_all cancelled_rows (cancel_abandoned_empty_sessions db).0)).1
        (Avoids-completed (Avoids-refund_all cancelled_rows (Avoids-cancelled h)))

  Avoids-complete :
      (session turns : ℕ) {db : Db}
      → Avoids bad id db
      → Avoids bad id (complete_session insert_job session turns db)
  unfolding complete_session update_session_status is_live
  Avoids-complete session turns h = Avoids-enqueued session turns (
      Avoids-refund bad id session
        (Avoids-update_where bad id _ _ (λ s. refl) (λ s same old hit. dead completed refl) h))

  Avoids-cancel :
      (session turns : ℕ) {db : Db}
      → Avoids bad id db
      → Avoids bad id (cancel_session session turns db)
  unfolding cancel_session Sessions.cancel_session is_live
  Avoids-cancel session turns h =
      Avoids-refund bad id session
        (Avoids-update_where bad id _ _ (λ s. refl) (λ s same old hit. dead cancelled refl) h)

  Avoids-fail :
      (session : ℕ) {db : Db} → Avoids bad id db → Avoids bad id (fail_session session db).1
  unfolding fail_session is_live
  Avoids-fail session {db} h = go (find_session session db.sessions) refl
    where
      go :
          (o : Option InterviewSession)
          → find_session session db.sessions ≡ o
          → Avoids bad id (fail_session session db).1
      go none e = rw (e, fail_session) h
      go (some s) e = elim (Bool-cases (is_active s.status)) [
        | inl yes_active ↦
            rw (e, fail_session, yes_active)
              (Avoids-full_refund bad id error_refund session
                (Avoids-status session failed (dead failed refl) h))
        | inr not_active ↦ rw (e, fail_session, not_active) h
      ]

  Avoids-retry :
      (session user : ℕ) {db : Db}
      → Avoids bad id db
      → Avoids bad id (retry insert_job session user db).1
  unfolding retry is_live
  Avoids-retry session user {db} h = go (get_session_for_user session user db) refl
    where
      go :
          (r : Result InterviewSession)
          → get_session_for_user session user db ≡ r
          → Avoids bad id (retry insert_job session user db).1
      go (err x) e = rw (e, retry) h
      go (ok s) e = elim (Bool-cases (is_evaluation_failed s.status)) [
        | inl has_failed ↦
            rw (e, retry, has_failed)
              (Avoids-enqueued session 2
                (Avoids-status session evaluating (dead evaluating refl) h))
        | inr has_not ↦ rw (e, retry, has_not) h
      ]

  pub Avoids-apply :
      (o : Op) (db : Db)
      → is_turn o ≡ false
      → Avoids bad id db
      → Avoids bad id (apply insert_job o db)
  unfolding apply archive_sessions_bulk is_live is_turn
  Avoids-apply (create p) db plain h = Avoids-create_session bad id p h
  Avoids-apply (acquire session) db plain h = absurd (ground arith)
  Avoids-apply (release session) db plain h = absurd (ground arith)
  Avoids-apply (recover session) db plain h = absurd (ground arith)
  Avoids-apply cleanup_generating db plain h = absurd (ground arith)
  Avoids-apply cleanup_abandoned db plain h = Avoids-abandoned h
  Avoids-apply (complete session turns) db plain h = Avoids-complete session turns h
  Avoids-apply (cancel session turns) db plain h = Avoids-cancel session turns h
  Avoids-apply (fail session) db plain h = Avoids-fail session h
  Avoids-apply (archive user ids b) db plain h =
      Avoids-update_where bad id _ _ (λ s. refl) (λ s same old hit. old) h
  Avoids-apply (mark_evaluating session) db plain h =
      Avoids-status session evaluating (dead evaluating refl) h
  Avoids-apply (mark_reviewed session) db plain h =
      Avoids-status session reviewed (dead reviewed refl) h
  Avoids-apply (mark_evaluation_failed session) db plain h =
      Avoids-status session evaluation_failed (dead evaluation_failed refl) h
  Avoids-apply (retry_evaluation session user) db plain h = Avoids-retry session user h
  Avoids-apply (later t) db plain h = record { given = h.given; rows = h.rows }

-- No row to acquire.
no_row :
    (id : ℕ) (ss : List InterviewSession)
    → All (λ (s : InterviewSession). s.id ≡ id → is_active s.status ≡ false) ss
    → select (λ (s : InterviewSession). s.id == id && is_active s.status) ss ≡ []
no_row id [] a = refl
no_row id (s ∷ ss) a = ground (arith, a.0, no_row id ss a.1)

pub acquire_none :
    (id : ℕ) (d : Db) → Avoids is_active id d → (acquire_generating_status id d).1 ≡ none
unfolding acquire_generating_status
acquire_none id d h = rw (no_row id d.sessions h.rows, acquire_generating_status) refl
