-- ===== src/Session/Lifecycle/Follows.antt =====
-- One write to the tables, seen from one session: its row stays, belongs to the same interview, and
-- its status makes a step of the abstract machine or none.
use sabermatic_dev.Prelude.{
  ℕ, ◌≡◌, ◌⊎◌, ap, refl, ◌∙◌, inl, inr, Bool, true, false, List, [], ◌∷◌, ◌++◌, arith,
  if◌then◌else◌, Bool-cases, Option-cases, Option, some,
}
use sabermatic_dev.Store.Rows.{Db, InterviewSession, Reason}
use sabermatic_dev.Store.Sessions
use sabermatic_dev.Store.Sessions.{find_session, update_where}
use sabermatic_dev.Store.Grants.Refund.{
  refund_session_minutes, full_refund_session_minutes, refundable, apply_credits,
}
use sabermatic_dev.Store.Grants.Reserve.{reserve_minutes}
use sabermatic_dev.Store.Grants.Shares.{Share}
use sabermatic_dev.Session.Rows.{find_session-update_where}
use sabermatic_dev.Session.Rows
use sabermatic_dev.Session.Create.{
  CreateSessionParams, create_session, validate, insert_and_reserve, commit_reserved,
}
use sabermatic_dev.Session.Errors.{Result, ok, err}
use sabermatic_dev.Session.Lifecycle.Abstract.{Reach, Reach-trans}

-- What never changes in a row.
pub record SameInterview (s t : InterviewSession) : Type 0 where
  pub id : t.id ≡ s.id
  pub user : t.user ≡ s.user
  pub question : t.question ≡ s.question
  pub minutes : t.config_duration_minutes ≡ s.config_duration_minutes
  pub reserved : t.reserved_minutes ≡ s.reserved_minutes
  pub started : t.started_at ≡ s.started_at

pub SameInterview-refl : (s : InterviewSession) → SameInterview s s
SameInterview-refl s = record {
  id = refl;
  user = refl;
  question = refl;
  minutes = refl;
  reserved = refl;
  started = refl;
}

SameInterview-trans :
    (s t u : InterviewSession) → SameInterview s t → SameInterview t u → SameInterview s u
SameInterview-trans s t u a b = record {
  id = b.id ∙ a.id;
  user = b.user ∙ a.user;
  question = b.question ∙ a.question;
  minutes = b.minutes ∙ a.minutes;
  reserved = b.reserved ∙ a.reserved;
  started = b.started ∙ a.started;
}

find-append :
    (id : ℕ) (ss ts : List InterviewSession) (s : InterviewSession)
    → find_session id ss ≡ some s
    → find_session id (ss ++ ts) ≡ some s
unfolding find_session
find-append id [] ts s h = absurd (ground arith)
find-append id (x ∷ xs) ts s h = ground (arith, h, find-append id xs ts s)

-- The row of the interview `origin` is there, and its status is within reach of the first one.
pub record Follows (id : ℕ) (origin : InterviewSession) (db : Db) : Type 0 where
  pub row : InterviewSession
  pub found : find_session id db.sessions ≡ some row
  pub same : SameInterview origin row
  pub reach : Reach origin.status row.status

module _ (id : ℕ) (origin : InterviewSession) where
  -- A write that leaves the sessions alone.
  pub Follows-same :
      {db db' : Db} → db'.sessions ≡ db.sessions → Follows id origin db → Follows id origin db'
  Follows-same e h = record { row = h.row; found = rw e h.found; same = h.same; reach = h.reach }

  pub Follows-update_where :
      (hit : InterviewSession → Bool) (change : InterviewSession → InterviewSession)
      → ((s : InterviewSession) → SameInterview s (change s))
      → {db : Db}
      → ((s : InterviewSession)
          → find_session id db.sessions ≡ some s
          → hit s ≡ true
          → Reach s.status (change s).status)
      → Follows id origin db
      → Follows id origin (update_where hit change db)
  Follows-update_where hit change keeps {db} step h = go (Bool-cases (hit h.row)) (
      find_session-update_where hit change (λ s. (keeps s).id) id db
      ∙ ap (Rows.changed hit change) h.found)
    where
      go :
          (hit h.row ≡ true) ⊎ (hit h.row ≡ false)
          → find_session id (update_where hit change db).sessions
            ≡ some (if hit h.row then change h.row else h.row)
          → Follows id origin (update_where hit change db)
      go (inl yes_hit) found = record {
        row = change h.row;
        found = rw (found, yes_hit) refl;
        same = SameInterview-trans origin h.row (change h.row) h.same (keeps h.row);
        reach = Reach-trans h.reach (step h.row h.found yes_hit);
      }
      go (inr no_hit) found = record {
        row = h.row;
        found = rw (found, no_hit) refl;
        same = h.same;
        reach = h.reach;
      }

  Follows-apply_credits :
      (user session : ℕ) (reason : Reason) (rows : List Share) {db : Db}
      → Follows id origin db
      → Follows id origin (apply_credits user session reason rows db).0
  unfolding apply_credits
  Follows-apply_credits user session reason rows h = Follows-same refl h

  pub Follows-refund :
      (session : ℕ) {db : Db}
      → Follows id origin db
      → Follows id origin (refund_session_minutes session db).0
  unfolding refund_session_minutes
  Follows-refund session {db} h = elim (Option-cases (refundable session db)) [
    | inl none_found ↦ rw (none_found, refund_session_minutes) h
    | inr (found, e) ↦ rw (e, refund_session_minutes) (Follows-apply_credits _ _ _ _ h)
  ]

  pub Follows-full_refund :
      (reason : Reason) (session : ℕ) {db : Db}
      → Follows id origin db
      → Follows id origin (full_refund_session_minutes reason session db).0
  unfolding full_refund_session_minutes
  Follows-full_refund reason session {db} h = elim (Option-cases (refundable session db)) [
    | inl none_found ↦ rw (none_found, full_refund_session_minutes) h
    | inr (found, e) ↦ rw (e, full_refund_session_minutes) (Follows-apply_credits _ _ _ _ h)
  ]

  Follows-reserve_minutes :
      (user session minutes : ℕ) {db : Db}
      → Follows id origin db
      → Follows id origin (reserve_minutes user session minutes db).0
  unfolding reserve_minutes
  Follows-reserve_minutes user session minutes h = Follows-same refl h

  Follows-inserted :
      (user question duration : ℕ) (tts : Bool) (minutes : Option ℕ) {db : Db}
      → Follows id origin db
      → Follows id origin (Sessions.create_session user question duration tts minutes db).0
  unfolding Sessions.create_session
  Follows-inserted user question duration tts minutes {db} h = record {
    row = h.row;
    found = find-append id db.sessions _ h.row h.found;
    same = h.same;
    reach = h.reach;
  }

  Follows-commit_reserved :
      (s : InterviewSession) (r : Db × List Share) {db : Db}
      → Follows id origin r.0
      → Follows id origin db
      → Follows id origin (commit_reserved s r db).1
  unfolding commit_reserved
  Follows-commit_reserved s (d, []) k h = h
  Follows-commit_reserved s (d, x ∷ xs) k h = k

  pub Follows-create_session :
      (p : CreateSessionParams) {db : Db}
      → Follows id origin db
      → Follows id origin (create_session p db).1
  unfolding create_session
  Follows-create_session p {db} h = go (validate p db)
    where
      go : (v : Result ℕ) → Follows id origin (insert_and_reserve p v db).1
      go (err e) = unfold insert_and_reserve in h
      go (ok duration) =
          unfold insert_and_reserve in
          Follows-commit_reserved _ _
            (Follows-reserve_minutes _ _ _
              (Follows-inserted p.user p.question duration p.tts_enabled (some duration) h))
            h
