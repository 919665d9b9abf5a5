-- ===== src/Tests/Accounts.antt =====
-- The theorems on accounts at concrete data.
use sabermatic_dev.Prelude.{
  ℕ, ◌≡◌, refl, suc, ◌++◌, false, none, some, [], ◌∷◌, List, String, length, arith,
}
use sabermatic_dev.Store.Rows.{Db, send_email}
use sabermatic_dev.Store.Accounts
use sabermatic_dev.Store.Accounts.{
  get_user_by_email, find_user, is_kept, get_user_by_id_including_deleted, get_oauth_account,
  has_token, delete_user_auth_sessions, update_user_password,
}
use sabermatic_dev.Store.Grants.Create.{has_user}
use sabermatic_dev.Webhook.Atoi.{codes}
use sabermatic_dev.Session.Errors.{ok, settle}
use sabermatic_dev.Account.{
  credentials, login, forgot_password, reset_password, reset_email, reset_purpose, verify_purpose,
  create_auth_session, update_display_name,
}
use sabermatic_dev.Account.Params.{
  LoginParams, OauthLoginParams, LoginResult, normalize_email, byte_length,
  validate_password_length, parse_client_ip, host_or, text_or_null,
}
use sabermatic_dev.Account.Token.{sign, verify, verified, unix, bytes_eq}
use sabermatic_dev.Account.RoundTrip.{IsSigned, Lacks, verify-sign, verify-IsSigned, outcome}
use sabermatic_dev.Account.Reset.{
  IsReset, reset_password-IsReset, reset_password-accepted, reset_token-accepted,
  forgot_password-reset, after_time, IsResetMail,
}
use sabermatic_dev.Account.SignIn.{IsLoggedIn, login-IsLoggedIn}
use sabermatic_dev.Account.OauthLogin.{
  OauthLoginResult, oauth_login, resolve_user, path_of, side_effects,
}
use sabermatic_dev.Account.Later.{AccountOp, logs_in_by, renames, waits, apply, run}
use sabermatic_dev.Account.SameUser.{oauth_login-same_user}
use sabermatic_dev.Tests.Data.{store, alice}
use sabermatic_dev.Tests.Coding.{coding, coding-IsFaithful, env}

plain : Lacks b'|' verify_purpose
unfolding codes
plain = (
  refl,
  (refl, (refl, (refl, (refl, (refl, (refl, (refl, (refl, (refl, (refl, (refl, tt))))))))))),
)

verify-sign_example :
    verify coding (sign coding 1 verify_purpose 5000000 1000) verify_purpose 3000000
    ≡ outcome 1 (bytes_eq verify_purpose verify_purpose) (unix 5001000) (unix 3000000)
verify-sign_example =
    verify-sign coding 1 verify_purpose verify_purpose 5000000 1000 3000000 coding-IsFaithful plain

abbrev token : List ℕ
token = sign coding 1 reset_purpose 5000000 1000

accepted : verify coding token reset_purpose 3000000 ≡ verified 1
accepted = reset_token-accepted env 1 1000 2999000 coding-IsFaithful (omega arith)

verify-IsSigned_example : IsSigned coding token reset_purpose 3000000 1
verify-IsSigned_example = verify-IsSigned coding token reset_purpose 3000000 1 accepted

abbrev alice_login : LoginParams
alice_login = record {
  email = "alice@example.org";
  password = "hash of secret";
  ip = "192.0.2.1";
  user_agent = "";
}

abbrev later_store : Db
later_store = after_time 2999000 (store [])

fits : validate_password_length "a new password" ≡ ok tt
unfolding validate_password_length byte_length codes
fits = refl

abbrev reset_store : Db
reset_store = delete_user_auth_sessions 1 (update_user_password 1 "a new password" later_store)

reset_password-IsReset_example : IsReset env token "a new password" later_store reset_store
reset_password-IsReset_example =
    reset_password-IsReset env token "a new password" later_store reset_store (
      reset_password-accepted env token "a new password" "a new password" 1 later_store fits
        accepted refl)

abbrev new_login : LoginParams
new_login = record alice_login { password = "a new password" }

found : get_user_by_email "alice@example.org" (store []) ≡ some alice
unfolding get_user_by_email find_user is_kept
found = refl

forgot_password-reset_example :
    let reset =
      reset_password env token "a new password"
        (after_time 2999000 (forgot_password env "alice@example.org" (store [])).1) in
    ((forgot_password env "alice@example.org" (store [])).0 ≡ ok tt)
    × ((forgot_password env "alice@example.org" (store [])).1.jobs
        ≡ env.insert_job (send_email (reset_email env alice 1000)) [])
    × IsResetMail env alice token (reset_email env alice 1000)
    × (reset.0 ≡ ok tt)
    × (credentials env new_login reset.1
        ≡ ok (record alice { password_hash = some "a new password" }))
unfolding normalize_email
forgot_password-reset_example =
    forgot_password-reset env "alice@example.org" "a new password" "a new password" (store []) alice
      new_login 2999000 coding-IsFaithful found fits refl refl refl refl (omega arith)

abbrev signed_in : String → Db → Db
signed_in raw db = record db {
  auth_sessions =
      db.auth_sessions
      ++ (record {
        id = db.next_id;
        user = 1;
        token_hash = raw;
        expires_at = 7001000;
        last_active = 1000;
        ip_address = some "192.0.2.1";
        user_agent = none;
        created_at = 1000;
      })
        ∷ [];
  next_id = suc db.next_id;
}

abbrev logged_in : LoginResult
logged_in = record { user = 1; email = "alice@example.org"; token = "t" }

login-IsLoggedIn_example :
    IsLoggedIn env alice_login (store []) (signed_in "t" (store [])) 2000 logged_in
unfolding login settle credentials create_auth_session Accounts.create_auth_session
    get_user_by_email find_user is_kept has_token has_user normalize_email parse_client_ip host_or
    text_or_null
login-IsLoggedIn_example =
    login-IsLoggedIn env alice_login (some "t") (store []) (signed_in "t" (store [])) logged_in 2000
      refl

abbrev linked_store : Db
linked_store = record (store []) {
  oauth_accounts = (record { id = 3; user = 1; provider = "google"; provider_id = "g-1" }) ∷ [];
}

abbrev by_google : OauthLoginParams
by_google = record {
  provider = "google";
  provider_id = "g-1";
  email = "alice@example.org";
  display_name = "Alice";
  ip = "192.0.2.1";
  user_agent = "";
}

abbrev moved : OauthLoginParams
moved = record by_google { email = "alice@example.net" }

abbrev google_result : String → OauthLoginResult
google_result raw = record {
  user = 1;
  email = "alice@example.org";
  token = raw;
  needs_profile = false;
}

-- In between Alice logs in by another provider, changes her name, and time passes.
abbrev busy : List AccountOp
busy =
    logs_in_by (record by_google { provider = "github" }) (some "g")
    ∷ renames 1 "Alice L."
    ∷ waits 500
    ∷ []

abbrev later_login : OauthLoginResult
later_login = record { user = 1; email = "alice@example.org"; token = "s"; needs_profile = false }

abbrev busy_store : Db
busy_store = run env busy (signed_in "t" linked_store)

oauth_login-same_user_example :
    (later_login.user ≡ (google_result "t").user)
    × (length (oauth_login env moved (some "s") busy_store).1.users ≡ length busy_store.users)
unfolding run apply oauth_login settle resolve_user path_of get_oauth_account
    get_user_by_id_including_deleted find_user side_effects create_auth_session
    Accounts.create_auth_session has_token has_user normalize_email parse_client_ip host_or
    text_or_null update_display_name Accounts.update_user_display_name is_kept
    Accounts.get_user_by_email_for_update Accounts.link_oauth_account
oauth_login-same_user_example =
    oauth_login-same_user env by_google moved (some "t") (some "s") busy linked_store
      (signed_in "t" linked_store) (oauth_login env moved (some "s") busy_store).1
      (google_result "t") later_login refl refl refl refl
