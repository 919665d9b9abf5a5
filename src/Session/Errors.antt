-- ===== src/Session/Errors.antt =====
-- internal/backend/errors.go: the errors of the backend, and a method's result.
use sabermatic_dev.Store.Rows.{Db}
use sabermatic_dev.Prelude.{if◌then◌else◌, ◌≡◌, refl, ap, ◌⊎◌, inl, inr, Bool, Option, some, none}

pub data Error : Type 0 where
  invalid_duration duration_exceeds_plan concurrent_session_limit insufficient_balance : Error
  question_not_found session_not_found session_not_owned session_not_active : Error
  evaluation_not_ready not_evaluation_failed turn_not_acquired : Error
  wait_timed_out context_done internal : Error
  missing_fields password_length duplicate_email invalid_credentials invalid_token : Error
  user_not_found already_exists no_paid_balance no_new_sessions : Error

-- The error is returned to the caller; the database that goes with it stands beside the result.
pub data Result {ℓ} (T : Type ℓ) : Type ℓ where
  err : Error → Result T
  ok : T → Result T

pub ok_inj {ℓ} : {T : Type ℓ} {x y : T} → ok x ≡ ok y → x ≡ y
ok_inj {x = x} h = ap (λ r. elim r [ err e ↦ x | ok z ↦ z ]) h

pub Result-cases {ℓ} :
    {T : Type ℓ} (r : Result T) → ((e : Error) × (r ≡ err e)) ⊎ ((v : T) × (r ≡ ok v))
Result-cases (err e) = inl (e, refl)
Result-cases (ok v) = inr (v, refl)

-- A transaction: committed with its result, or rolled back with its error.
unfoldable pub settle {ℓ} : {T : Type ℓ} → Result (T × Db) → Db → Result T × Db
settle (err e) db = (err e, db)
settle (ok (value, db')) db = (ok value, db')

-- `if !holds { return e }`
abbrev pub ensure : Bool → Error → Result (Unit {0})
ensure holds e = if holds then ok tt else err e

-- A row that a query may not find.
abbrev pub found_or {ℓ} : {T : Type ℓ} → Option T → Error → Result T
found_or (some row) e = ok row
found_or none e = err e

infixl 5 ◌>>=◌ ◌>>◌
abbrev pub ◌>>=◌ {ℓ κ} : {S : Type ℓ} {T : Type κ} → Result S → (S → Result T) → Result T
r >>= next = elim r [ err e ↦ err e | ok value ↦ next value ]

abbrev pub ◌>>◌ {ℓ} : {T : Type ℓ} → Result (Unit {0}) → Result T → Result T
first >> second = first >>= λ unit. second
