-- ===== src/Account.antt =====
-- internal/backend/auth.go, oauth.go and user.go with internal/auth: the accounts.
-- A method returns its result with the database that it leaves: the old one where a transaction is
-- rolled back. The random bytes of a session token are an argument, `none` if there are none.
pub mod Token
pub mod RoundTrip
pub mod Params
pub mod OauthLogin
pub mod Sessions
pub mod Access
pub mod Reset
pub mod SignIn
pub mod Linked
pub mod Resolved
pub mod Kept
pub mod KeptAll
pub mod Later
pub mod SameUser
use sabermatic_dev.Prelude.{ℕ, ◌+◌, not, ◌||◌, List, ◌++◌, Option, none, some, String, str_eq}
use sabermatic_dev.Prelude.Int.{pos}
use sabermatic_dev.Billing.{free_trial_minutes}
use sabermatic_dev.Store.Rows.{Db, User, AuthSession, Email, send_email}
use sabermatic_dev.Store.Accounts
use sabermatic_dev.Store.Accounts.{
  get_user_by_email, create_user, get_auth_session_by_token, delete_auth_session,
  update_user_password, delete_user_auth_sessions, verify_user_email, update_user_display_name,
}
use sabermatic_dev.Store.Grants.Create.{ensure_free_grant}
use sabermatic_dev.Webhook.Atoi.{codes}
use sabermatic_dev.Session.Errors.{
  Result, ok, err, settle, ◌>>=◌, ◌>>◌, ensure, found_or, missing_fields, duplicate_email,
  invalid_credentials, invalid_token, user_not_found, internal,
}
use Token.{Verified, verified, rejected, sign, verify}
use Params.{
  SignupParams, LoginParams, LoginResult, Env, validate_password_length, normalize_email,
  parse_client_ip, text_or_null,
}

-- The purposes of signed tokens.
abbrev pub verify_purpose : List ℕ
verify_purpose = codes "verify-email"

abbrev pub reset_purpose : List ℕ
reset_purpose = codes "reset-password"

module _ (env : Env) where
  unfoldable pub verification_email : User → ℕ → Email
  verification_email user now =
      let url =
        env.base_url
        ++ codes "/verify-email?token="
        ++ sign env.coding user.id verify_purpose env.verify_ttl now in
      record {
        to = user.email;
        subject = "Verify your Sabermatic[.DEV] account";
        text = codes "Click here to verify your email: " ++ url;
        html = env.render url;
      }

  unfoldable pub reset_email : User → ℕ → Email
  reset_email user now =
      let url =
        env.base_url
        ++ codes "/reset-password?token="
        ++ sign env.coding user.id reset_purpose env.reset_ttl now in
      record {
        to = user.email;
        subject = "Reset your Sabermatic[.DEV] password";
        text = codes "Click here to reset your password: " ++ url;
        html = env.render url;
      }

  unfoldable pub enqueue_email : Email → Db → Db
  enqueue_email email db = record db { jobs = env.insert_job (send_email email) db.jobs }

  unfoldable pub provision_new_user : ℕ → Db → Result Db
  provision_new_user user db =
      found_or (ensure_free_grant user (pos free_trial_minutes) (env.ten_years_after db.now) db)
        internal

  -- createAuthSession: the row, and the raw token for the client.
  unfoldable pub create_auth_session :
      ℕ → String → String → Option String → Db → Result (String × Db)
  unfolding parse_client_ip text_or_null
  create_auth_session user ip agent random db = do
    token ← found_or random internal
    stored ←
        found_or
          (Accounts.create_auth_session user (env.hash_token token) (db.now + env.session_ttl)
            (parse_client_ip env ip) (text_or_null agent) db)
          internal
    ok (token, stored)

  unfoldable pub register : String → String → String → Db → Result (User × Db)
  unfolding provision_new_user enqueue_email verification_email
  register email password name db = do
    hash ← found_or (env.hash_password password) internal
    created ← found_or (create_user email hash name db) duplicate_email
    provisioned ← provision_new_user created.1.id created.0
    ok (created.1, enqueue_email (verification_email created.1 db.now) provisioned)

  unfoldable pub signup : SignupParams → Db → Result User × Db
  unfolding settle register normalize_email validate_password_length
  signup p db =
      settle
        (do
          let email = normalize_email env p.email
          let name = env.trim_space p.display_name
          ensure (not (str_eq email "" || (str_eq p.password "" || str_eq name ""))) missing_fields
          validate_password_length p.password
          register email p.password name db)
        db

  unfoldable pub credentials : LoginParams → Db → Result User
  unfolding normalize_email
  credentials p db = do
    user ← found_or (get_user_by_email (normalize_email env p.email) db) invalid_credentials
    hash ← found_or user.password_hash invalid_credentials
    ensure (env.check_password hash p.password) invalid_credentials
    ok user

  unfoldable pub login : LoginParams → Option String → Db → Result LoginResult × Db
  unfolding settle credentials create_auth_session
  login p random db =
      settle
        (do
          user ← credentials p db
          session ← create_auth_session user.id p.ip p.user_agent random db
          ok (record { user = user.id; email = user.email; token = session.0 }, session.1))
        db

  unfoldable pub delete_found : Option (AuthSession × User) → Db → Db
  delete_found none db = db
  delete_found (some (session, user)) db = delete_auth_session session.id db

  unfoldable pub logout : String → Db → Db
  unfolding delete_found
  logout token db = delete_found (get_auth_session_by_token (env.hash_token token) db) db

  unfoldable pub holder : Verified → Result ℕ
  holder (rejected e) = err invalid_token
  holder (verified user) = ok user

  unfoldable pub verify_email : List ℕ → Db → Result (Unit {0}) × Db
  unfolding settle holder
  verify_email token db =
      settle
        (do
          user ← holder (verify env.coding token verify_purpose db.now)
          ok (tt, verify_user_email user db))
        db

  unfoldable pub forgot_password : String → Db → Result (Unit {0}) × Db
  unfolding settle normalize_email enqueue_email reset_email
  forgot_password email db =
      settle
        (do
          user ← found_or (get_user_by_email (normalize_email env email) db) user_not_found
          ok (tt, enqueue_email (reset_email user db.now) db))
        db

  unfoldable pub reset_password : List ℕ → String → Db → Result (Unit {0}) × Db
  unfolding settle validate_password_length holder
  reset_password token password db =
      settle
        (do
          validate_password_length password
          user ← holder (verify env.coding token reset_purpose db.now)
          hash ← found_or (env.hash_password password) internal
          ok (tt, delete_user_auth_sessions user (update_user_password user hash db)))
        db

unfoldable pub update_display_name : ℕ → String → Db → Result User × Db
update_display_name user name db =
    let (db', found) = update_user_display_name name user db in (found_or found user_not_found, db')
