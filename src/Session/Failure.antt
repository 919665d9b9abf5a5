-- ===== src/Session/Failure.antt =====
-- FailSession: a session that the platform fails has cost nothing.
use sabermatic_dev.Prelude.{ℕ, ◌≤◌, ◌≡◌, refl, ◌∙◌, arith, ◌==◌, some, none}
use sabermatic_dev.Store.Rows.{Db, failed, error_refund}
use sabermatic_dev.Store.Sessions
use sabermatic_dev.Store.Sessions.{find_session, update_session_status_only, is_active}
use sabermatic_dev.Store.Grants.Reserve.{reserve_minutes}
use sabermatic_dev.Store.Grants.Refund.{full_refund_session_minutes}
use sabermatic_dev.Ledger.Books.{IsBooked}
use sabermatic_dev.Ledger.Reserve.Exact.{balance}
use sabermatic_dev.Ledger.Refund.RoundTrip.{IsUnbilled, reserve_full_refund}
use sabermatic_dev.Session.Errors.{ok}
use sabermatic_dev.Session.Create.{CreateSessionParams, validate, create_session}
use sabermatic_dev.Session.End.{fail_session}
use sabermatic_dev.Session.Rows.{find_session-append_new, find_session-update_where}
use sabermatic_dev.Session.Reservation.{
  inserted, new_session, reservation, inserted-IsBooked, committed, validate_ok,
}

-- The id that the next row gets is new to both tables.
pub record IsFresh (db : Db) : Type 0 where
  pub unused : find_session db.next_id db.sessions ≡ none
  pub unbilled : IsUnbilled db.next_id db.entries

module _ (p : CreateSessionParams) (db : Db) (booked : IsBooked db) (fresh : IsFresh db) (d : ℕ)
    (one : 1 ≤ d) (covered : d ≤ balance p.user db) where
  abbrev made : Db
  made = (reservation p db booked d).0

  found_new :
      find_session db.next_id (inserted p db booked d).sessions ≡ some (new_session p db booked d)
  unfolding Sessions.create_session
  found_new = find_session-append_new db.next_id _ db.sessions fresh.unused refl

  abbrev marked : Db
  marked = update_session_status_only db.next_id failed (inserted p db booked d)

  marked-IsBooked : IsBooked marked
  unfolding update_session_status_only
  marked-IsBooked =
      let b = inserted-IsBooked p db booked d in
      record {
        balanced = b.balanced;
        within = b.within;
        distinct = b.distinct;
        old_grants = b.old_grants;
        old_entries = b.old_entries;
      }

  found_marked :
      find_session db.next_id marked.sessions
      ≡ some (record (new_session p db booked d) { status = failed })
  unfolding update_session_status_only Sessions.create_session
  found_marked =
      find_session-update_where (λ s. s.id == db.next_id) (λ s. record s { status = failed })
        (λ s. refl) db.next_id (inserted p db booked d)
      ∙ rw found_new (ground arith)

  same_write :
      update_session_status_only db.next_id failed made
      ≡ (reserve_minutes p.user db.next_id d marked).0
  unfolding update_session_status_only reserve_minutes Sessions.create_session
  same_write = refl

  grants_back :
      (full_refund_session_minutes error_refund db.next_id
        (update_session_status_only db.next_id failed made)).0.grants
      ≡ db.grants
  unfolding Sessions.create_session update_session_status_only
  grants_back = rw same_write (
      reserve_full_refund p.user db.next_id d marked marked-IsBooked fresh.unbilled covered
        error_refund _ found_marked refl)

  found_made : find_session db.next_id made.sessions ≡ some (new_session p db booked d)
  unfolding reserve_minutes
  found_made = found_new

  fail_made :
      ((fail_session db.next_id made).0 ≡ ok tt)
      × ((fail_session db.next_id made).1.grants ≡ db.grants)
  unfolding fail_session is_active Sessions.create_session
  fail_made = (rw (found_made, fail_session), rw (found_made, fail_session) grants_back)

-- If the books are right, the next id is new to sessions and ledger and CreateSession's checks
-- pass, then a session that is created and at once failed by the platform has cost nothing:
-- FailSession succeeds and the table of grants is what it was before CreateSession.
pub create_fail_restores :
    (p : CreateSessionParams) (db : Db)
    → IsBooked db
    → IsFresh db
    → (d : ℕ) → validate p db ≡ ok d
    → let db' = (create_session p db).1 in
      ((fail_session db.next_id db').0 ≡ ok tt)
      × ((fail_session db.next_id db').1.grants ≡ db.grants)
unfolding create_session
create_fail_restores p db booked fresh d h =
    let (bs, a) = validate_ok p db d h in
    rw (h, create_session)
      (rw (committed p db booked d a.at_least a.covered)
        (fail_made p db booked fresh d a.at_least a.covered))
