-- ===== src/Account/Reset.antt =====
-- ForgotPassword and ResetPassword.
use mathlib.Core.Path.{subst}
use sabermatic_dev.Prelude.{
  some_inj, ℕ, ◌+◌, ◌≤◌, ◌≡◌, refl, ap, ◌∙◌, inl, inr, Bool, true, false, List, [], ◌∷◌, ◌++◌, map,
  some, String, ltb, ◌==◌, if◌then◌else◌, arith, All, Bool-cases, Option-cases,
}
use sabermatic_dev.Store.Rows.{Db, User, Email, send_email}
use sabermatic_dev.Store.Accounts.{
  find_user, is_kept, get_user_by_email, delete_user_auth_sessions, update_user_password,
}
use sabermatic_dev.Webhook.Atoi.{codes}
use sabermatic_dev.Session.Errors.{settle, ok, Result-cases}
use sabermatic_dev.Account.{
  credentials, reset_password, forgot_password, reset_purpose, reset_email, holder, enqueue_email,
}
use sabermatic_dev.Account.Params.{Env, LoginParams, validate_password_length, normalize_email}
use sabermatic_dev.Account.Token.{Verified, verified, rejected, unix, sign, verify}
use sabermatic_dev.Account.RoundTrip.{
  IsSigned, verify-IsSigned, IsFaithful, Lacks, verify-sign, outcome, bytes_eq_refl,
}
use sabermatic_dev.Account.Access.{credentials-passed}
use sabermatic_dev.Account.Sessions.{NoSession, select-NoSession}

-- The rows of a user that have this password.
abbrev pub HasPassword : ℕ → String → List User → Type 0
HasPassword user hash us = All (λ (u : User). u.id ≡ user → u.password_hash ≡ some hash) us

update_user_password-HasPassword :
    (user : ℕ) (hash : String) (db : Db)
    → HasPassword user hash (update_user_password user hash db).users
unfolding update_user_password
update_user_password-HasPassword user hash db = go db.users
  where
    one :
        (u : User)
        → (let v = if u.id == user then record u { password_hash = some hash } else u in
            v.id ≡ user → v.password_hash ≡ some hash)
    one u = elim (Bool-cases (u.id == user)) [
      | inl his ↦ rw his (λ e. refl)
      | inr other ↦ rw other (λ e. absurd (ground (arith, other)))
    ]

    go :
        (us : List User)
        → HasPassword user hash (
            map
              (λ (u : User). if u.id == user then record u { password_hash = some hash } else u)
              us)
    go [] = tt
    go (u ∷ us) = (one u, go us)

-- What a successful reset has done.
pub record IsReset (env : Env) (token : List ℕ) (password : String) (db db' : Db) : Type 0 where
  pub user : ℕ
  pub hash : String
  pub by_token : IsSigned env.coding token reset_purpose db.now user
  pub hashed : env.hash_password password ≡ some hash
  pub signed_out : NoSession user db'.auth_sessions
  pub changed : HasPassword user hash db'.users

module _ (env : Env) (token : List ℕ) (password : String) (db db' : Db) where
  -- A password is reset only with a token that was signed for this purpose and has not expired;
  -- then every row of its user has the hash of the new password, and none of the user's sessions
  -- is left.
  pub reset_password-IsReset :
      reset_password env token password db ≡ (ok tt, db') → IsReset env token password db db'
  unfolding reset_password holder settle delete_user_auth_sessions update_user_password
  reset_password-IsReset = elim (Result-cases (validate_password_length password)) [
    | inl (e, short) ↦ rw (short, reset_password) (λ h. absurd (ground arith))
    | inr (u, fits) ↦ go fits (verify env.coding token reset_purpose db.now) refl
  ]
    where
      go :
          {u : Unit {0}}
          → validate_password_length password ≡ ok u
          → (v : Verified) → verify env.coding token reset_purpose db.now ≡ v
          → reset_password env token password db ≡ (ok tt, db')
          → IsReset env token password db db'
      go fits (rejected e) bad =
          rw (fits, bad, reset_password) (λ h. absurd (unfold holder in ground arith))
      go fits (verified user) good = elim (Option-cases (env.hash_password password)) [
        | inl failed ↦
            rw (fits, good, failed, reset_password) (λ h. absurd (unfold holder in ground arith))
        | inr (hash, hashed) ↦
            rw (fits, good, hashed, reset_password)
              (λ h.
                subst (λ d. IsReset env token password db d) (ap (λ r. r.1) h)
                  (record {
                    user = user;
                    hash = hash;
                    by_token = verify-IsSigned env.coding token reset_purpose db.now user good;
                    hashed = hashed;
                    signed_out = select-NoSession user db.auth_sessions;
                    changed = update_user_password-HasPassword user hash db;
                  }))
      ]

find_user-map :
    (hit : User → Bool) (change : User → User)
    → ((u : User) → hit (change u) ≡ hit u)
    → (us : List User) (u : User) → find_user hit us ≡ some u
    → find_user hit (map change us) ≡ some (change u)
unfolding find_user
find_user-map hit change same [] u = λ h. absurd (ground arith)
find_user-map hit change same (x ∷ us) u = elim (Bool-cases (hit x)) [
  | inl here ↦ rw (same x, here) (λ h. ap some (ap change (some_inj h)))
  | inr there ↦ rw (same x, there) (find_user-map hit change same us u)
]

-- The same email finds the same row after its password has been changed.
get_user_by_email-new_password :
    (email : String) (hash : String) (db : Db) (u : User)
    → get_user_by_email email db ≡ some u
    → get_user_by_email email (delete_user_auth_sessions u.id (update_user_password u.id hash db))
      ≡ some (record u { password_hash = some hash })
unfolding get_user_by_email update_user_password delete_user_auth_sessions
get_user_by_email-new_password email hash db u found =
    find_user-map _ (λ v. if v.id == u.id then record v { password_hash = some hash } else v)
      (λ v. ground (arith, is_kept)) db.users u found
    ∙ ground arith

abbrev pub after_time : ℕ → Db → Db
after_time later db = record db { now = db.now + later }

reset_plain : Lacks b'|' reset_purpose
unfolding codes
reset_plain = (
  refl,
  (
    refl,
    (
      refl,
      (refl, (refl, (refl, (refl, (refl, (refl, (refl, (refl, (refl, (refl, (refl, tt))))))))))),
    ),
  ),
)

-- A token for a reset is accepted within its lifetime.
pub reset_token-accepted :
    (env : Env) (user now later : ℕ)
    → IsFaithful env.coding
    → later ≤ env.reset_ttl
    → verify env.coding
        (sign env.coding user reset_purpose env.reset_ttl now)
        reset_purpose
        (now + later)
      ≡ verified user
unfolding outcome
reset_token-accepted env user now later faithful h =
    verify-sign env.coding user reset_purpose reset_purpose env.reset_ttl now (now + later) faithful
      reset_plain
    ∙ rw (bytes_eq_refl reset_purpose, in_time, outcome) refl
  where
    in_time : ltb (unix (now + env.reset_ttl)) (unix (now + later)) ≡ false
    in_time =
        let order : unix (now + later) ≤ unix (now + env.reset_ttl) = omega (arith, h) in
        ground (arith, order)

-- A mail to the user, with the link that ends in this token.
pub record IsResetMail (env : Env) (u : User) (token : List ℕ) (mail : Email) : Type 0 where
  pub to_user : mail.to ≡ u.email
  pub link :
      mail.text
      ≡ codes "Click here to reset your password: "
        ++ (env.base_url ++ codes "/reset-password?token=" ++ token)
  pub page : mail.html ≡ env.render (env.base_url ++ codes "/reset-password?token=" ++ token)

reset_email-IsResetMail :
    (env : Env) (u : User) (now : ℕ)
    → IsResetMail env u
        (sign env.coding u.id reset_purpose env.reset_ttl now)
        (reset_email env u now)
unfolding reset_email
reset_email-IsResetMail env u now = record { to_user = refl; link = refl; page = refl }

forgot_password-found :
    (env : Env) (email : String) (db : Db) (u : User)
    → get_user_by_email (normalize_email env email) db ≡ some u
    → forgot_password env email db ≡ (ok tt, enqueue_email env (reset_email env u db.now) db)
unfolding forgot_password settle
forgot_password-found env email db u found = rw (found, forgot_password) refl

pub reset_password-accepted :
    (env : Env) (token : List ℕ) (password hash : String) (user : ℕ) (db : Db)
    → validate_password_length password ≡ ok tt
    → verify env.coding token reset_purpose db.now ≡ verified user
    → env.hash_password password ≡ some hash
    → reset_password env token password db
      ≡ (ok tt, delete_user_auth_sessions user (update_user_password user hash db))
unfolding reset_password settle holder
reset_password-accepted env token password hash user db fits good hashed =
    rw (fits, good, hashed, reset_password) refl

module _ (env : Env) (email password hash : String) (db : Db) (u : User) where
  -- ForgotPassword hands the user's mail to the job queue, and the link of the mail ends in a token
  -- that works: within its lifetime it sets a new password of an allowed length, with which the user
  -- then passes the check of Login. The user is found by the email, the coding of tokens is as
  -- documented, the new password has a hash and matches it, and only time passes between the two
  -- requests.
  pub forgot_password-reset :
      (p : LoginParams) (later : ℕ)
      → IsFaithful env.coding
      → get_user_by_email (normalize_email env email) db ≡ some u
      → validate_password_length password ≡ ok tt
      → env.hash_password password ≡ some hash
      → env.check_password hash password ≡ true
      → normalize_email env p.email ≡ normalize_email env email
      → p.password ≡ password
      → later ≤ env.reset_ttl
      → let token = sign env.coding u.id reset_purpose env.reset_ttl db.now in
        let asked = forgot_password env email db in
        let reset = reset_password env token password (after_time later asked.1) in
        (asked.0 ≡ ok tt)
        × (asked.1.jobs ≡ env.insert_job (send_email (reset_email env u db.now)) db.jobs)
        × IsResetMail env u token (reset_email env u db.now)
        × (reset.0 ≡ ok tt)
        × (credentials env p reset.1 ≡ ok (record u { password_hash = some hash }))
  unfolding enqueue_email get_user_by_email
  forgot_password-reset p later faithful found fits hashed checks same_email same_password h =
      let asked_db = enqueue_email env (reset_email env u db.now) db in
      let later_db = after_time later asked_db in
      let asked = forgot_password-found env email db u found in
      let reset =
        reset_password-accepted env (sign env.coding u.id reset_purpose env.reset_ttl db.now)
          password hash u.id later_db fits (reset_token-accepted env u.id db.now later faithful h)
          hashed in
      let found_later : get_user_by_email (normalize_email env p.email) later_db ≡ some u =
        rw same_email found in
      rw (asked, reset)
        (
          refl,
          refl,
          reset_email-IsResetMail env u db.now,
          refl,
          credentials-passed env p _ _ hash
              (get_user_by_email-new_password (normalize_email env p.email) hash later_db u
                found_later)
              refl (rw same_password checks),
        )
