-- ===== src/Session/Lifecycle/Abstract.antt =====
-- The life of one interview as an abstract machine: what the statuses of one session may do, with
-- no tables, no clock and no other session.
use sabermatic_dev.Prelude.{◌≡◌, true, arith}
use sabermatic_dev.Store.Rows.{
  Status, active, generating, completed, evaluating, reviewed, evaluation_failed, failed, cancelled,
}
use sabermatic_dev.Store.Sessions.{is_active, is_generating}

-- Only a waiting interview begins a turn or fails, only a running turn gives the interview back,
-- and the statuses that close an interview or tell of its evaluation may follow any other.
pub data Step : Status → Status → Type 0 where
  begins_turn : Step active generating
  ends_turn : Step generating active
  fails : Step active failed
  completes : {s : Status} → Step s completed
  cancels : {s : Status} → Step s cancelled
  evaluates : {s : Status} → Step s evaluating
  reviews : {s : Status} → Step s reviewed
  fails_evaluation : {s : Status} → Step s evaluation_failed

-- Any number of steps.
pub data Reach (start : Status) : Status → Type 0 where
  here : Reach start start
  after : {s t : Status} → Reach start s → Step s t → Reach start t

pub once : {s t : Status} → Step s t → Reach s t
once step = after here step

pub Reach-trans : {s t u : Status} → Reach s t → Reach t u → Reach s u
Reach-trans a here = a
Reach-trans a (after b step) = after (Reach-trans a b) step

pub begins : (s : Status) → is_active s ≡ true → Step s generating
unfolding is_active
begins active h = begins_turn
begins generating h = absurd (ground arith)
begins completed h = absurd (ground arith)
begins evaluating h = absurd (ground arith)
begins reviewed h = absurd (ground arith)
begins evaluation_failed h = absurd (ground arith)
begins failed h = absurd (ground arith)
begins cancelled h = absurd (ground arith)

pub ends : (s : Status) → is_generating s ≡ true → Step s active
unfolding is_generating
ends generating h = ends_turn
ends active h = absurd (ground arith)
ends completed h = absurd (ground arith)
ends evaluating h = absurd (ground arith)
ends reviewed h = absurd (ground arith)
ends evaluation_failed h = absurd (ground arith)
ends failed h = absurd (ground arith)
ends cancelled h = absurd (ground arith)

pub fails_active : (s : Status) → is_active s ≡ true → Step s failed
unfolding is_active
fails_active active h = fails
fails_active generating h = absurd (ground arith)
fails_active completed h = absurd (ground arith)
fails_active evaluating h = absurd (ground arith)
fails_active reviewed h = absurd (ground arith)
fails_active evaluation_failed h = absurd (ground arith)
fails_active failed h = absurd (ground arith)
fails_active cancelled h = absurd (ground arith)
