-- ===== src/Session/Lifecycle/Steps.antt =====
-- One operation: a property of statuses that no row has lost is kept, if each UPDATE keeps it.
use sabermatic_dev.Prelude.{
  ℕ, ◌<◌, ◌≡◌, sym, ◌∙◌, inl, inr, Bool, true, false, List, [], ◌∷◌, ◌++◌, map, arith,
  if◌then◌else◌, All, Bool-cases, Option-cases, Option, some,
}
use sabermatic_dev.Store.Rows.{Db, InterviewSession, Status, Reason}
use sabermatic_dev.Store.Sessions
use sabermatic_dev.Store.Sessions.{update_where}
use sabermatic_dev.Store.Grants.Refund.{
  refund_session_minutes, full_refund_session_minutes, refundable, apply_credits,
}
use sabermatic_dev.Store.Grants.Reserve.{reserve_minutes}
use sabermatic_dev.Store.Grants.Shares.{Share}
use sabermatic_dev.Session.Create.{
  CreateSessionParams, create_session, validate, insert_and_reserve, commit_reserved,
}
use sabermatic_dev.Session.Errors.{Result, ok, err}

-- The rows of one id avoid the statuses of `bad`, and the id has been given out.
module _ (bad : Status → Bool) (id : ℕ) where
  pub record Avoids (db : Db) : Type 0 where
    pub given : id < db.next_id
    pub rows : All (λ (s : InterviewSession). s.id ≡ id → bad s.status ≡ false) db.sessions

  -- A write that leaves the sessions alone.
  pub Avoids-same :
      {db db' : Db} → db'.sessions ≡ db.sessions → db'.next_id ≡ db.next_id → Avoids db → Avoids db'
  Avoids-same {db} {db'} e n h = record { given = omega (arith, h.given); rows = rw e h.rows }

  pub Avoids-update_where :
      (hit : InterviewSession → Bool) (change : InterviewSession → InterviewSession)
      → ((s : InterviewSession) → (change s).id ≡ s.id)
      → ((s : InterviewSession)
          → s.id ≡ id
          → bad s.status ≡ false
          → hit s ≡ true
          → bad (change s).status ≡ false)
      → {db : Db} → Avoids db
      → Avoids (update_where hit change db)
  unfolding update_where
  Avoids-update_where hit change same good {db} h = record {
    given = h.given;
    rows = go db.sessions h.rows;
  }
    where
      one :
          (s : InterviewSession)
          → (s.id ≡ id → bad s.status ≡ false)
          → (let t = if hit s then change s else s in t.id ≡ id → bad t.status ≡ false)
      one s p = elim (Bool-cases (hit s)) [
        | inl yes_hit ↦ rw yes_hit (λ e. good s (sym (same s) ∙ e) (p (sym (same s) ∙ e)) yes_hit)
        | inr no_hit ↦ rw no_hit p
      ]

      go :
          (ss : List InterviewSession)
          → All (λ (s : InterviewSession). s.id ≡ id → bad s.status ≡ false) ss
          → All
              (λ (s : InterviewSession). s.id ≡ id → bad s.status ≡ false)
              (map (λ (s : InterviewSession). if hit s then change s else s) ss)
      go [] a = tt
      go (s ∷ ss) a = (one s a.0, go ss a.1)

  Avoids-apply_credits :
      (user session : ℕ) (reason : Reason) (rows : List Share) {db : Db}
      → Avoids db
      → Avoids (apply_credits user session reason rows db).0
  unfolding apply_credits
  Avoids-apply_credits user session reason rows h = record { given = h.given; rows = h.rows }

  pub Avoids-refund :
      (session : ℕ) {db : Db} → Avoids db → Avoids (refund_session_minutes session db).0
  unfolding refund_session_minutes
  Avoids-refund session {db} h = elim (Option-cases (refundable session db)) [
    | inl none_found ↦ rw (none_found, refund_session_minutes) h
    | inr (found, e) ↦ rw (e, refund_session_minutes) (Avoids-apply_credits _ _ _ _ h)
  ]

  pub Avoids-full_refund :
      (reason : Reason) (session : ℕ) {db : Db}
      → Avoids db
      → Avoids (full_refund_session_minutes reason session db).0
  unfolding full_refund_session_minutes
  Avoids-full_refund reason session {db} h = elim (Option-cases (refundable session db)) [
    | inl none_found ↦ rw (none_found, full_refund_session_minutes) h
    | inr (found, e) ↦ rw (e, full_refund_session_minutes) (Avoids-apply_credits _ _ _ _ h)
  ]

  one_more :
      (ss : List InterviewSession) (s : InterviewSession)
      → id < s.id
      → All (λ (t : InterviewSession). t.id ≡ id → bad t.status ≡ false) ss
      → All (λ (t : InterviewSession). t.id ≡ id → bad t.status ≡ false) (ss ++ s ∷ [])
  one_more [] s above a = (λ e. absurd (omega arith), tt)
  one_more (t ∷ ts) s above a = (a.0, one_more ts s above a.1)

  Avoids-reserve_minutes :
      (user session minutes : ℕ) {db : Db}
      → Avoids db
      → Avoids (reserve_minutes user session minutes db).0
  unfolding reserve_minutes
  Avoids-reserve_minutes user session minutes k = record { given = k.given; rows = k.rows }

  -- A new row has an id that was not given out.
  Avoids-inserted :
      (user question duration : ℕ) (tts : Bool) (minutes : Option ℕ) {db : Db}
      → Avoids db
      → Avoids (Sessions.create_session user question duration tts minutes db).0
  unfolding Sessions.create_session
  Avoids-inserted user question duration tts minutes {db} h = record {
    given = omega (arith, h.given);
    rows = one_more db.sessions _ h.given h.rows;
  }

  Avoids-commit_reserved :
      (s : InterviewSession) (r : Db × List Share) {db : Db}
      → Avoids r.0
      → Avoids db
      → Avoids (commit_reserved s r db).1
  unfolding commit_reserved
  Avoids-commit_reserved s (d, []) k h = h
  Avoids-commit_reserved s (d, x ∷ xs) k h = k

  pub Avoids-create_session :
      (p : CreateSessionParams) {db : Db} → Avoids db → Avoids (create_session p db).1
  unfolding create_session
  Avoids-create_session p {db} h = go (validate p db)
    where
      go : (v : Result ℕ) → Avoids (insert_and_reserve p v db).1
      go (err e) = unfold insert_and_reserve in h
      go (ok duration) =
          unfold insert_and_reserve in
          Avoids-commit_reserved _ _
            (Avoids-reserve_minutes _ _ _
              (Avoids-inserted p.user p.question duration p.tts_enabled (some duration) h))
            h
