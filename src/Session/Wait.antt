-- ===== src/Session/Wait.antt =====
-- waitForGeneration: the wait ends, and what it has waited for.
use sabermatic_dev.Prelude.{
  ℕ, zero, suc, ◌+◌, ◌*◌, ◌≤◌, ◌<◌, ◌≡◌, refl, inl, inr, false, arith, ltb, Option, some, none,
  Bool-cases, Option-cases,
}
use sabermatic_dev.Store.Rows.{Db, InterviewSession}
use sabermatic_dev.Store.Sessions.{
  find_session, is_generating, is_stale, inline_recover_stale_generating,
}
use sabermatic_dev.Session.Errors.{Result, ok, err}
use sabermatic_dev.Session.End.{
  Poll, over, again, poll, resume, proceed, wait_loop, wait_for_generation,
}

-- With `ok`, the session is there and no reply of it is being generated.
abbrev pub IsQuiet : ℕ → Result (Unit {0}) → Db → Type 0
IsQuiet id (err e) db = Unit {0}
IsQuiet id (ok u) db =
    (s : InterviewSession) × (find_session id db.sessions ≡ some s)
    × (is_generating s.status ≡ false)

-- A pause takes half a second at least.
abbrev pub IsPause : Db → Option Db → Type 0
IsPause db none = Unit {0}
IsPause db (some db') = db.now + 500000 ≤ db'.now

abbrev pub Ends : ℕ → Option (Result (Unit {0}) × Db) → Type 0
Ends id none = ⊥
Ends id (some (r, db)) = IsQuiet id r db

-- What one poll finds: an end of the wait, or a database of the same time.
abbrev Polled : ℕ → ℕ → Db → Poll → Db → Type 0
Polled deadline id db (over r) db' = IsQuiet id r db'
Polled deadline id db again db' = (db'.now ≡ db.now) × (db.now ≤ deadline)

polled :
    (deadline id : ℕ) (db : Db)
    → Polled deadline id db (poll deadline id db).0 (poll deadline id db).1
unfolding poll inline_recover_stale_generating
polled deadline id db = elim (Bool-cases (ltb deadline db.now)) [
  | inl late ↦ rw late tt
  | inr early ↦ elim (Option-cases (find_session id db.sessions)) [
    | inl missing ↦ rw (early, missing) tt
    | inr (s, found) ↦ elim (Bool-cases (is_generating s.status)) [
      | inr quiet ↦ rw (early, found, quiet) (s, found, quiet)
      | inl busy ↦ elim (Bool-cases (is_stale db.now s)) [
        | inl stale ↦ rw (early, found, busy, stale) (refl, ground arith)
        | inr fresh ↦ rw (early, found, busy, fresh) (refl, ground arith)
      ]
    ]
  ]
]

module _ (pause : Db → Option Db) (pauses : (db : Db) → IsPause db (pause db)) where
  resume-Ends :
      (loop : Db → Option (Result (Unit {0}) × Db)) (id : ℕ) (db : Db) (o : Option Db)
      → IsPause db o
      → ((db' : Db) → db.now + 500000 ≤ db'.now → Ends id (loop db'))
      → Ends id (resume pause loop db o)
  unfolding resume
  resume-Ends loop id db none p ends = tt
  resume-Ends loop id db (some db') p ends = ends db' p

  proceed-Ends :
      (loop : Db → Option (Result (Unit {0}) × Db)) (deadline id : ℕ) (db : Db) (x : Poll × Db)
      → Polled deadline id db x.0 x.1
      → (db.now ≤ deadline → (db' : Db) → db.now + 500000 ≤ db'.now → Ends id (loop db'))
      → Ends id (proceed pause loop x)
  unfolding proceed
  proceed-Ends loop deadline id db (over r, db') p ends = p
  proceed-Ends loop deadline id db (again, db') p ends =
      resume-Ends loop id db' (pause db') (pauses db')
        (λ db'' k. ends p.1 db'' (omega (arith, p.0)))

  wait_loop-Ends :
      (fuel deadline id : ℕ) (db : Db)
      → deadline < db.now + 500000 * fuel
      → Ends id (wait_loop pause (suc fuel) deadline id db)
  unfolding wait_loop
  wait_loop-Ends zero deadline id db h =
      proceed-Ends _ deadline id db (poll deadline id db) (polled deadline id db)
        (λ early db' k. absurd (omega arith))
  wait_loop-Ends (suc fuel) deadline id db h =
      proceed-Ends _ deadline id db (poll deadline id db) (polled deadline id db)
        (λ early db' k. wait_loop-Ends fuel deadline id db' (omega arith))

  -- If each pause takes half a second at least, the wait for a generation comes to a result on its
  -- fuel; and if the result is `ok`, the session is there and no reply of it is being generated.
  pub wait_for_generation-Ends : (id : ℕ) (db : Db) → Ends id (wait_for_generation pause id db)
  unfolding wait_for_generation
  wait_for_generation-Ends id db = wait_loop-Ends 121 (db.now + 60000000) id db (omega arith)
