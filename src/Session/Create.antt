-- ===== src/Session/Create.antt =====
-- internal/backend/session.go: CreateSession.
use sabermatic_dev.Prelude.{ℕ, Bool, false, not, ◌||◌, List, [], ◌∷◌, ◌==◌, some}
use sabermatic_dev.Prelude.Int.{ℤ, pos, pos_part, ltb_ℤ}
use sabermatic_dev.Billing.{
  Entitlements, resolve, duration_allowed, balance_sufficient, concurrent_sessions_allowed,
}
use sabermatic_dev.Store.Rows.{Db, InterviewSession}
use sabermatic_dev.Store.Sessions
use sabermatic_dev.Store.Sessions.{count_active_sessions_by_user}
use sabermatic_dev.Store.Grants.Shares.{Share}
use sabermatic_dev.Store.Grants.Reserve.{reserve_minutes}
use sabermatic_dev.Store.Grants.Balance.{get_billing_snapshot}
use sabermatic_dev.Session.Errors.{
  Result, ok, err, ◌>>=◌, ◌>>◌, ensure, found_or, invalid_duration, duration_exceeds_plan,
  concurrent_session_limit, insufficient_balance, question_not_found, internal,
}

pub record CreateSessionParams : Type 0 where
  pub user : ℕ
  pub question : ℕ
  pub duration_minutes : ℤ
  pub tts_enabled : Bool

unfoldable pub has_question : ℕ → List ℕ → Bool
has_question id [] = false
has_question id (q ∷ qs) = q == id || has_question id qs

-- Backend.CheckTx
unfoldable pub check : ℕ → Db → Result Entitlements
check user db = do
  snapshot ← found_or (get_billing_snapshot user db) internal
  ok (resolve snapshot)

-- Everything up to the INSERT; the value is the duration as an int32.
unfoldable pub validate : CreateSessionParams → Db → Result ℕ
unfolding check has_question
validate p db = do
  ensure (not (ltb_ℤ p.duration_minutes (pos 1) || ltb_ℤ (pos 180) p.duration_minutes))
      invalid_duration
  let duration = pos_part p.duration_minutes
  ent ← check p.user db
  ensure (duration_allowed ent duration) duration_exceeds_plan
  ensure (concurrent_sessions_allowed ent (count_active_sessions_by_user p.user db))
      concurrent_session_limit
  ensure (balance_sufficient ent duration) insufficient_balance
  ensure (has_question p.question db.questions) question_not_found
  ok duration

-- reserveMinutesTx and the commit, or the rollback to `db`.
unfoldable pub commit_reserved :
    InterviewSession → Db × List Share → Db → Result InterviewSession × Db
commit_reserved session (db', []) db = (err insufficient_balance, db)
commit_reserved session (db', s ∷ rest) db = (ok session, db')

unfoldable pub insert_and_reserve :
    CreateSessionParams → Result ℕ → Db → Result InterviewSession × Db
unfolding commit_reserved
insert_and_reserve p (err e) db = (err e, db)
insert_and_reserve p (ok duration) db =
    let (db', session) =
      Sessions.create_session p.user p.question duration p.tts_enabled (some duration) db in
    commit_reserved session (reserve_minutes p.user session.id duration db') db

unfoldable pub create_session : CreateSessionParams → Db → Result InterviewSession × Db
unfolding validate insert_and_reserve
create_session p db = insert_and_reserve p (validate p db) db
