-- ===== src/Session/Lifecycle/Ended.antt =====
-- A session that has left the states `active` and `generating` never comes back to them.
use sabermatic_dev.Prelude.{ℕ, ◌≡◌, refl, false, List, [], ◌∷◌, arith, All-imp, none}
use sabermatic_dev.Store.Rows.{Db, Job}
use sabermatic_dev.Store.Sessions.{
  acquire_generating_status, release_generating_status, inline_recover_stale_generating,
  cleanup_stale_generating, is_active,
}
use sabermatic_dev.Session.Lifecycle.{
  Op, create, acquire, release, recover, cleanup_generating, cleanup_abandoned, complete, cancel,
  fail, archive, mark_evaluating, mark_reviewed, mark_evaluation_failed, retry_evaluation, later,
  apply, run,
}
use sabermatic_dev.Session.Lifecycle.Steps.{Avoids, Avoids-update_where}
use sabermatic_dev.Session.Lifecycle.Writes.{is_live, is_turn, Avoids-apply, acquire_none}

abbrev pub IsOver : ℕ → Db → Type 0
IsOver id db = Avoids is_live id db

module _ (insert_job : Job → List Job → List Job) (id : ℕ) where
  plain : (o : Op) (db : Db) → is_turn o ≡ false → IsOver id db → IsOver id (apply insert_job o db)
  plain = Avoids-apply insert_job is_live (λ s e. e) id

  IsOver-apply : (o : Op) (db : Db) → IsOver id db → IsOver id (apply insert_job o db)
  unfolding apply acquire_generating_status release_generating_status
      inline_recover_stale_generating cleanup_stale_generating is_live is_turn
  IsOver-apply (acquire session) db h =
      Avoids-update_where is_live id _ _ (λ s. refl) (λ s same old hit. absurd (ground arith)) h
  IsOver-apply (release session) db h =
      Avoids-update_where is_live id _ _ (λ s. refl) (λ s same old hit. absurd (ground arith)) h
  IsOver-apply (recover session) db h =
      Avoids-update_where is_live id _ _ (λ s. refl) (λ s same old hit. absurd (ground arith)) h
  IsOver-apply cleanup_generating db h =
      Avoids-update_where is_live id _ _ (λ s. refl) (λ s same old hit. absurd (ground arith)) h
  IsOver-apply (create p) db h = plain (create p) db refl h
  IsOver-apply cleanup_abandoned db h = plain cleanup_abandoned db refl h
  IsOver-apply (complete session turns) db h = plain (complete session turns) db refl h
  IsOver-apply (cancel session turns) db h = plain (cancel session turns) db refl h
  IsOver-apply (fail session) db h = plain (fail session) db refl h
  IsOver-apply (archive user ids b) db h = plain (archive user ids b) db refl h
  IsOver-apply (mark_evaluating session) db h = plain (mark_evaluating session) db refl h
  IsOver-apply (mark_reviewed session) db h = plain (mark_reviewed session) db refl h
  IsOver-apply (mark_evaluation_failed session) db h =
      plain (mark_evaluation_failed session) db refl h
  IsOver-apply (retry_evaluation session user) db h =
      plain (retry_evaluation session user) db refl h
  IsOver-apply (later t) db h = plain (later t) db refl h

  not_active : {db : Db} → IsOver id db → Avoids is_active id db
  unfolding is_live
  not_active {db} h = record {
    given = h.given;
    rows = All-imp _ _ db.sessions (λ s p e. ground (arith, p e)) h.rows;
  }

  run-IsOver : (os : List Op) (db : Db) → IsOver id db → IsOver id (run insert_job os db)
  unfolding run
  run-IsOver [] db h = h
  run-IsOver (o ∷ os) db h = run-IsOver os (apply insert_job o db) (IsOver-apply o db h)

  -- A session whose id has been given out and that is neither `active` nor `generating` stays so,
  -- and is refused a turn, whatever methods and jobs run before, in whatever order.
  pub run-IsOver_refuses :
      (os : List Op) (db : Db)
      → IsOver id db
      → IsOver id (run insert_job os db)
        × ((acquire_generating_status id (run insert_job os db)).1 ≡ none)
  run-IsOver_refuses os db h =
      let later_over = run-IsOver os db h in
      (later_over, acquire_none id (run insert_job os db) (not_active later_over))
