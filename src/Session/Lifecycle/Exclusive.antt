-- ===== src/Session/Lifecycle/Exclusive.antt =====
-- A session takes one turn at a time.
use sabermatic_dev.Prelude.{
  ℕ, map, if◌then◌else◌, ◌<◌, true, ◌≡◌, refl, Bool, false, ◌&&◌, List, [], ◌∷◌, arith, ◌==◌, All,
  some, none,
}
use sabermatic_dev.Store.Rows.{Db, InterviewSession, generating, Job}
use sabermatic_dev.Store.Sessions.{
  update_where, acquire_generating_status, release_generating_status,
  inline_recover_stale_generating, is_active,
}
use sabermatic_dev.Session.Lifecycle.{
  Op, create, acquire, release, recover, cleanup_generating, cleanup_abandoned, complete, cancel,
  fail, archive, mark_evaluating, mark_reviewed, mark_evaluation_failed, retry_evaluation, later,
  apply, run,
}
use sabermatic_dev.Session.Lifecycle.Steps.{Avoids, Avoids-update_where}
use sabermatic_dev.Session.Lifecycle.Writes.{is_live, is_turn, Avoids-apply, acquire_none}

-- The operation may give the session of `id` back to `active`.
unfoldable pub gives_back : ℕ → Op → Bool
gives_back id (release session) = session == id
gives_back id (recover session) = session == id
gives_back id cleanup_generating = true
gives_back id _ = false

module _ (insert_job : Job → List Job → List Job) (id : ℕ) where
  -- No row of the session can be acquired.
  abbrev IsTaken : Db → Type 0
  IsTaken db = Avoids is_active id db

  plain : (o : Op) (db : Db) → is_turn o ≡ false → IsTaken db → IsTaken (apply insert_job o db)
  unfolding is_live
  plain = Avoids-apply insert_job is_active (λ s e. ground (arith, e)) id

  IsTaken-apply :
      (o : Op) (db : Db) → gives_back id o ≡ false → IsTaken db → IsTaken (apply insert_job o db)
  unfolding apply acquire_generating_status release_generating_status
      inline_recover_stale_generating is_turn gives_back
  IsTaken-apply (acquire session) db k h =
      Avoids-update_where is_active id _ _ (λ s. refl) (λ s same old hit. refl) h
  IsTaken-apply (release session) db k h =
      Avoids-update_where is_active id _ _ (λ s. refl) (λ s same old hit. absurd (ground arith)) h
  IsTaken-apply (recover session) db k h =
      Avoids-update_where is_active id _ _ (λ s. refl) (λ s same old hit. absurd (ground arith)) h
  IsTaken-apply cleanup_generating db k h = absurd (ground arith)
  IsTaken-apply (create p) db k h = plain (create p) db refl h
  IsTaken-apply cleanup_abandoned db k h = plain cleanup_abandoned db refl h
  IsTaken-apply (complete session turns) db k h = plain (complete session turns) db refl h
  IsTaken-apply (cancel session turns) db k h = plain (cancel session turns) db refl h
  IsTaken-apply (fail session) db k h = plain (fail session) db refl h
  IsTaken-apply (archive user ids b) db k h = plain (archive user ids b) db refl h
  IsTaken-apply (mark_evaluating session) db k h = plain (mark_evaluating session) db refl h
  IsTaken-apply (mark_reviewed session) db k h = plain (mark_reviewed session) db refl h
  IsTaken-apply (mark_evaluation_failed session) db k h =
      plain (mark_evaluation_failed session) db refl h
  IsTaken-apply (retry_evaluation session user) db k h =
      plain (retry_evaluation session user) db refl h
  IsTaken-apply (later t) db k h = plain (later t) db refl h

  IsTaken-run :
      (os : List Op) (db : Db)
      → All (λ (o : Op). gives_back id o ≡ false) os
      → IsTaken db
      → IsTaken (run insert_job os db)
  unfolding run
  IsTaken-run [] db k h = h
  IsTaken-run (o ∷ os) db k h =
      IsTaken-run os (apply insert_job o db) k.1 (IsTaken-apply o db k.0 h)

  IsTaken-acquire : (db : Db) → id < db.next_id → IsTaken (acquire_generating_status id db).0
  unfolding acquire_generating_status update_where
  IsTaken-acquire db given = record { given = given; rows = go db.sessions }
    where
      go :
          (ss : List InterviewSession)
          → All
              (λ (s : InterviewSession). s.id ≡ id → is_active s.status ≡ false)
              (map
                (λ (s : InterviewSession).
                  if s.id == id && is_active s.status
                  then record s { status = generating; generating_since = some db.now }
                  else s)
                ss)
      go [] = tt
      go (s ∷ ss) = (ground arith, go ss)

  -- After a turn has acquired a session whose id has been given out, no other turn can acquire it,
  -- whatever methods and jobs run, until one of them gives the session back: a release or a
  -- recovery of the same session, or the job that recovers stale sessions.
  pub acquire_exclusive :
      (os : List Op) (db : Db)
      → id < db.next_id
      → All (λ (o : Op). gives_back id o ≡ false) os
      → (acquire_generating_status id (run insert_job os (acquire_generating_status id db).0)).1
        ≡ none
  acquire_exclusive os db given k =
      acquire_none id (run insert_job os (acquire_generating_status id db).0)
        (IsTaken-run os (acquire_generating_status id db).0 k (IsTaken-acquire db given))
