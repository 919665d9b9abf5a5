-- ===== src/Tests/Data.antt =====
-- The data of the tests.
use sabermatic_dev.Prelude.{refl, true, false, arith, some, none, List, [], ◌∷◌}
use sabermatic_dev.Prelude.Int.{pos}
use sabermatic_dev.Billing.{BillingSnapshot}
use sabermatic_dev.Store.Rows.{
  Db, User, Grant, LedgerEntry, InterviewSession, Message, Status, free_grant, free_trial,
  interviewer,
}
use sabermatic_dev.Ledger.Books.{IsBooked}
use sabermatic_dev.Session.Create.{CreateSessionParams}

abbrev pub alice : User
alice = record {
  id = 1;
  email = "alice@example.org";
  email_verified = true;
  password_hash = some "hash of secret";
  display_name = "Alice";
  stripe_customer = some "cus_1";
  plan = "free";
  deleted_at = none;
  free_full_educators_used = 0;
}

abbrev pub trial : Grant
trial = record {
  id = 2;
  user = 1;
  source = free_grant;
  stripe_event = none;
  initial_minutes = 60;
  remaining_minutes = 60;
  expires_at = none;
  created_at = 100;
}

abbrev pub trial_entry : LedgerEntry
trial_entry = record {
  user = 1;
  grant = 2;
  amount = pos 60;
  reason = free_trial;
  session = none;
  created_at = 100;
}

abbrev pub interview : Status → InterviewSession
interview status = record {
  id = 5;
  user = 1;
  question = 7;
  status = status;
  config_duration_minutes = 30;
  config_tts_enabled = false;
  started_at = 100;
  ended_at = none;
  turn_count = 0;
  reserved_minutes = some 30;
  archived_at = none;
  generating_since = none;
  created_at = 100;
}

abbrev pub greeting : Message
greeting = record {
  id = 6;
  session = 5;
  seq = 1;
  role = interviewer;
  content = "Hello.";
  input_method = none;
}

abbrev pub store : List InterviewSession → Db
store sessions = record {
  users = alice ∷ [];
  grants = trial ∷ [];
  entries = trial_entry ∷ [];
  sessions = sessions;
  messages = greeting ∷ [];
  questions = 7 ∷ [];
  auth_sessions = [];
  oauth_accounts = [];
  evaluations = [];
  annotations = [];
  educator_analyses = [];
  coach_analyses = [];
  jobs = [];
  next_id = 10;
  now = 1000;
}

pub store-IsBooked : (sessions : List InterviewSession) → IsBooked (store sessions)
store-IsBooked sessions = record {
  balanced = (refl, tt);
  within = (omega arith, tt);
  distinct = (tt, tt);
  old_grants = (omega arith, tt);
  old_entries = (omega arith, tt);
}

abbrev pub half_an_hour : CreateSessionParams
half_an_hour = record { user = 1; question = 7; duration_minutes = pos 30; tts_enabled = false }

abbrev pub snapshot : BillingSnapshot
snapshot = record {
  plan = "free";
  total_balance = 60;
  paid_balance = 0;
  free_full_educators_used = 0;
}
