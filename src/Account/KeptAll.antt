-- ===== src/Account/KeptAll.antt =====
-- The other methods on accounts keep every link too.
use mathlib.Core.Path.{subst}
use sabermatic_dev.Prelude.{
  ℕ, ◌≡◌, sym, ap, ◌∙◌, ◌⊎◌, inl, inr, true, false, not, ◌||◌, List, Option, none, some, some_inj,
  String, str_eq, arith, Bool-cases, Option-cases,
}
use sabermatic_dev.Store.Rows.{Db, User, AuthSession}
use sabermatic_dev.Store.Accounts.{
  create_user, has_email, add_user, update_user_password, delete_user_auth_sessions,
  delete_auth_session, verify_user_email, get_auth_session_by_token, get_user_by_email,
}
use sabermatic_dev.Session.Errors.{
  Error, ok, err, settle, ok_inj, Result-cases, ◌>>◌, ensure, missing_fields,
}
use sabermatic_dev.Account.{
  signup, register, login, credentials, create_auth_session, logout, delete_found, verify_email,
  verify_purpose, reset_purpose, holder, forgot_password, reset_password, provision_new_user,
  enqueue_email, verification_email,
}
use sabermatic_dev.Account.Token.{verify}
use sabermatic_dev.Account.Params.{
  Env, SignupParams, LoginParams, normalize_email, validate_password_length,
}
use sabermatic_dev.Account.Linked.{
  provision_new_user-KeepsLinks, create_auth_session-KeepsLinks, verify_user_email-KeepsLinks,
}
use sabermatic_dev.Account.Kept.{KeepsFound, same_accounts, settle-KeepsFound}

create_user-accounts :
    (email hash name : String) (db : Db) (made : Db × User)
    → create_user email hash name db ≡ some made
    → made.0.oauth_accounts ≡ db.oauth_accounts
unfolding create_user add_user
create_user-accounts email hash name db made = elim (Bool-cases (has_email email db.users)) [
  | inl taken ↦ rw taken (λ h. absurd (ground arith))
  | inr free ↦ rw free (λ h. ap (λ (x : Db × User). x.0.oauth_accounts) (sym (some_inj h)))
]

register-KeepsFound :
    (env : Env) (email password name : String) (db : Db) (v : User × Db)
    → register env email password name db ≡ ok v
    → KeepsFound db v.1
unfolding register enqueue_email
register-KeepsFound env email password name db v =
    elim (Option-cases (env.hash_password password)) [
      | inl failed ↦ rw (failed, register) (λ h. absurd (ground arith))
      | inr (hash, hashed) ↦ elim (Option-cases (create_user email hash name db)) [
        | inl taken ↦ rw (hashed, taken, register) (λ h. absurd (ground arith))
        | inr (made, created) ↦ elim (Result-cases (provision_new_user env made.1.id made.0)) [
          | inl (e, failed) ↦ rw (hashed, created, failed, register) (λ h. absurd (ground arith))
          | inr (d, done) ↦
              rw (hashed, created, done, register)
                (λ h.
                  subst (λ (w : User × Db). KeepsFound db w.1) (ok_inj h)
                    (same_accounts db (enqueue_email env (verification_email env made.1 db.now) d) (
                      (provision_new_user-KeepsLinks env made.1.id made.0 d done).accounts
                      ∙ create_user-accounts email hash name db made created)))
        ]
      ]
    ]

pub signup-KeepsFound : (env : Env) (p : SignupParams) (db : Db) → KeepsFound db (signup env p db).1
unfolding signup
signup-KeepsFound env p db = settle-KeepsFound _ db (λ v. checked v (Bool-cases _) (Result-cases _))
  where
    email : String
    email = normalize_email env p.email

    name : String
    name = env.trim_space p.display_name

    checked :
        (v : User × Db)
        → ((not (str_eq email "" || (str_eq p.password "" || str_eq name "")) ≡ true)
            ⊎ (not (str_eq email "" || (str_eq p.password "" || str_eq name "")) ≡ false))
        → (((e : Error) × (validate_password_length p.password ≡ err e))
            ⊎ ((u : Unit {0}) × (validate_password_length p.password ≡ ok u)))
        → (do
          ensure (not (str_eq email "" || (str_eq p.password "" || str_eq name ""))) missing_fields
          validate_password_length p.password
          register env email p.password name db)
          ≡ ok v
        → KeepsFound db v.1
    checked v (inr missing) fits = rw missing (λ h. absurd (ground arith))
    checked v (inl given) (inl (e, short)) = rw (given, short) (λ h. absurd (ground arith))
    checked v (inl given) (inr (u, fits)) =
        rw (given, fits) (λ h. register-KeepsFound env email p.password name db v h)

pub login-KeepsFound :
    (env : Env) (p : LoginParams) (random : Option String) (db : Db)
    → KeepsFound db (login env p random db).1
unfolding login settle
login-KeepsFound env p random db = elim (Result-cases (credentials env p db)) [
  | inl (e, wrong) ↦ rw (wrong, login, settle) (λ q i a found. found)
  | inr (u, right) ↦
      elim (Result-cases (create_auth_session env u.id p.ip p.user_agent random db)) [
        | inl (e, failed) ↦ rw (right, failed, login, settle) (λ q i a found. found)
        | inr (v, made) ↦
            rw (right, made, login, settle)
              (same_accounts db v.1
                (create_auth_session-KeepsLinks env u.id p.ip p.user_agent random db v
                  made).accounts)
      ]
]

pub logout-KeepsFound : (env : Env) (token : String) (db : Db) → KeepsFound db (logout env token db)
unfolding logout delete_found delete_auth_session
logout-KeepsFound env token db = go (get_auth_session_by_token (env.hash_token token) db)
  where
    go : (o : Option (AuthSession × User)) → KeepsFound db (delete_found env o db)
    go none = λ q i a found. found
    go (some (s, u)) = λ q i a found. found

pub verify_email-KeepsFound :
    (env : Env) (token : List ℕ) (db : Db) → KeepsFound db (verify_email env token db).1
unfolding verify_email settle
verify_email-KeepsFound env token db =
    elim (Result-cases (holder env (verify env.coding token verify_purpose db.now))) [
      | inl (e, bad) ↦ rw (bad, verify_email, settle) (λ q i a found. found)
      | inr (u, good) ↦
          rw (good, verify_email, settle)
            (same_accounts db (verify_user_email u db) (verify_user_email-KeepsLinks u db).accounts)
    ]

pub forgot_password-KeepsFound :
    (env : Env) (email : String) (db : Db) → KeepsFound db (forgot_password env email db).1
unfolding forgot_password settle enqueue_email
forgot_password-KeepsFound env email db =
    elim (Option-cases (get_user_by_email (normalize_email env email) db)) [
      | inl missing ↦ rw (missing, forgot_password, settle) (λ q i a found. found)
      | inr (u, has) ↦ rw (has, forgot_password, settle) (λ q i a found. found)
    ]

pub reset_password-KeepsFound :
    (env : Env) (token : List ℕ) (password : String) (db : Db)
    → KeepsFound db (reset_password env token password db).1
unfolding reset_password settle update_user_password delete_user_auth_sessions
reset_password-KeepsFound env token password db =
    elim (Result-cases (validate_password_length password)) [
      | inl (e, short) ↦ rw (short, reset_password, settle) (λ q i a found. found)
      | inr (u, fits) ↦
          elim (Result-cases (holder env (verify env.coding token reset_purpose db.now))) [
            | inl (e, bad) ↦ rw (fits, bad, reset_password, settle) (λ q i a found. found)
            | inr (user, good) ↦ elim (Option-cases (env.hash_password password)) [
              | inl failed ↦ rw (fits, good, failed, reset_password, settle) (λ q i a found. found)
              | inr (hash, hashed) ↦
                  rw (fits, good, hashed, reset_password, settle) (λ q i a found. found)
            ]
          ]
    ]
