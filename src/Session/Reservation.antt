-- ===== src/Session/Reservation.antt =====
-- CreateSession: whom it admits, and that it charges exactly the duration.
use sabermatic_dev.Prelude.{
  ℕ, ◌+◌, ◌≤◌, ◌<◌, ◌≡◌, refl, ◌∙◌, inl, inr, true, List, [], ◌∷◌, arith, All-imp, Option-cases,
  some,
}
use sabermatic_dev.Prelude.Int.{pos}
use sabermatic_dev.Billing.{
  BillingSnapshot, resolve, duration_allowed, balance_sufficient, concurrent_sessions_allowed,
}
use sabermatic_dev.Store.Rows.{Db, InterviewSession, active}
use sabermatic_dev.Store.Sessions
use sabermatic_dev.Store.Sessions.{count_active_sessions_by_user}
use sabermatic_dev.Store.Grants.Shares.{Share}
use sabermatic_dev.Store.Grants.Reserve.{reserve_minutes}
use sabermatic_dev.Store.Grants.Balance.{get_billing_snapshot}
use sabermatic_dev.Ledger.Shares.{minutes_of}
use sabermatic_dev.Ledger.Books.{IsBooked}
use sabermatic_dev.Ledger.Reserve.Exact.{balance, reserve_minutes_exact, reserve_minutes-IsBooked}
use sabermatic_dev.Session.Errors.{Result, ok, err}
use sabermatic_dev.Session.Create.{
  CreateSessionParams, validate, create_session, has_question, insert_and_reserve, commit_reserved,
}

snapshot_balance :
    (user : ℕ) (db : Db) (bs : BillingSnapshot)
    → get_billing_snapshot user db ≡ some bs
    → bs.total_balance ≡ balance user db
unfolding get_billing_snapshot
snapshot_balance user db bs h = ground arith

-- What the checks before the INSERT have found.
pub record Admitted (p : CreateSessionParams) (db : Db) (d : ℕ) (bs : BillingSnapshot)
    : Type 0 where
  pub snapshot : get_billing_snapshot p.user db ≡ some bs
  pub duration : p.duration_minutes ≡ pos d
  pub at_least : 1 ≤ d
  pub at_most : d ≤ 180
  pub in_plan : d ≤ (resolve bs).plan.max_duration_minutes
  pub concurrent : count_active_sessions_by_user p.user db < (resolve bs).plan.concurrent_sessions
  pub covered : d ≤ balance p.user db
  pub known_question : has_question p.question db.questions ≡ true

resolve_total : (bs : BillingSnapshot) → (resolve bs).total_balance ≡ bs.total_balance
unfolding resolve
resolve_total bs = refl

pub validate_ok :
    (p : CreateSessionParams) (db : Db) (d : ℕ)
    → validate p db ≡ ok d
    → (bs : BillingSnapshot) × Admitted p db d bs
unfolding validate duration_allowed balance_sufficient concurrent_sessions_allowed
validate_ok p db d h = elim (Option-cases (get_billing_snapshot p.user db)) [
  | inl missing ↦ absurd (ground arith)
  | inr (bs, found) ↦ (bs, ground (arith, snapshot_balance p.user db bs found, resolve_total bs))
]

-- What a created session is, and what it has cost.
pub record Created (p : CreateSessionParams) (db : Db) (d : ℕ) (s : InterviewSession) (db' : Db)
    : Type 0 where
  pub owner : s.user ≡ p.user
  pub running : s.status ≡ active
  pub reserved : s.reserved_minutes ≡ some d
  pub charged : balance p.user db' + d ≡ balance p.user db
  pub booked : IsBooked db'

module _ (p : CreateSessionParams) (db : Db) (booked : IsBooked db) (d : ℕ) where
  abbrev pub inserted : Db
  inserted = (Sessions.create_session p.user p.question d p.tts_enabled (some d) db).0

  abbrev pub new_session : InterviewSession
  new_session = (Sessions.create_session p.user p.question d p.tts_enabled (some d) db).1

  abbrev pub reservation : Db × List Share
  reservation = reserve_minutes p.user new_session.id d inserted

  pub inserted-IsBooked : IsBooked inserted
  unfolding Sessions.create_session
  inserted-IsBooked = record {
    balanced = booked.balanced;
    within = booked.within;
    distinct = booked.distinct;
    old_grants = All-imp _ _ db.grants (λ g k. omega arith) booked.old_grants;
    old_entries = All-imp _ _ db.entries (λ e k. omega arith) booked.old_entries;
  }

  inserted-balance : balance p.user inserted ≡ balance p.user db
  unfolding Sessions.create_session
  inserted-balance = refl

  -- The reservation that follows the checks cannot fail.
  pub committed :
      1 ≤ d
      → d ≤ balance p.user db
      → commit_reserved new_session reservation db ≡ (ok new_session, reservation.0)
  committed one covered = nonempty reservation (
      omega (
        arith,
        reserve_minutes_exact p.user new_session.id d inserted inserted-IsBooked
            (omega (arith, inserted-balance)),
      ))
    where
      nonempty :
          (r : Db × List Share)
          → 1 ≤ minutes_of r.1
          → commit_reserved new_session r db ≡ (ok new_session, r.0)
      nonempty (db', []) h = absurd (omega arith)
      nonempty (db', s ∷ rest) h = unfold commit_reserved in refl

  created : d ≤ balance p.user db → Created p db d new_session reservation.0
  unfolding Sessions.create_session
  created covered = record {
    owner = refl;
    running = refl;
    reserved = refl;
    charged =
        (reserve_minutes_exact p.user new_session.id d inserted inserted-IsBooked
          (omega (arith, inserted-balance))).0
        ∙ inserted-balance;
    booked = reserve_minutes-IsBooked p.user new_session.id d inserted inserted-IsBooked;
  }

-- If the books are right and the checks pass, with the duration `d`, CreateSession succeeds: the
-- session is the user's, is active and has `d` minutes reserved, the balance falls by exactly `d`
-- and the books stay right.
pub create_session_charges :
    (p : CreateSessionParams) (db : Db)
    → IsBooked db
    → (d : ℕ) → validate p db ≡ ok d
    → (s : InterviewSession) × (db' : Db) × (create_session p db ≡ (ok s, db'))
      × Created p db d s db'
unfolding create_session
create_session_charges p db booked d h =
    let (bs, a) = validate_ok p db d h in
    (
      new_session p db booked d,
      (reservation p db booked d).0,
      rw (h, create_session) (committed p db booked d a.at_least a.covered),
      created p db booked d a.covered,
    )

-- Whoever gets a session had, at that moment, a duration between 1 and 180 minutes that the plan
-- allows, fewer active sessions than the plan allows, a balance that covers the duration, and
-- asked for a question that is there.
pub create_session_admits :
    (p : CreateSessionParams) (db : Db) (s : InterviewSession)
    → (create_session p db).0 ≡ ok s
    → (d : ℕ) × (bs : BillingSnapshot) × Admitted p db d bs
unfolding create_session
create_session_admits p db s h = go (validate p db) refl
  where
    go : (r : Result ℕ) → validate p db ≡ r → (d : ℕ) × (bs : BillingSnapshot) × Admitted p db d bs
    go (ok d) e = let (bs, a) = validate_ok p db d e in (d, bs, a)
    go (err x) e = absurd (refused e h)
      where
        refused : validate p db ≡ err x → (insert_and_reserve p (validate p db) db).0 ≡ ok s → ⊥
        refused v g = ground arith
