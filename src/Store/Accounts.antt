-- ===== src/Store/Accounts.antt =====
-- internal/db/users.sql.go, auth_sessions.sql.go and oauth_accounts.sql.go: the accounts.
-- An INSERT that a constraint of the schema refuses returns `none`: the UNIQUE email, the UNIQUE
-- token_hash, the foreign keys. The columns role, created_at and updated_at of users are left out.
use sabermatic_dev.Prelude.{
  ℕ, suc, Bool, true, false, not, ◌&&◌, ◌||◌, Option, none, some, List, [], ◌∷◌, ◌++◌, map, String,
  str_eq, ltb, ◌==◌, if◌then◌else◌, select,
}
use sabermatic_dev.Store.Rows.{Db, User, AuthSession, OauthAccount}
use sabermatic_dev.Store.Grants.Create.{has_user}

-- `SELECT … LIMIT 1`: the first row that passes the test.
unfoldable pub find_user : (User → Bool) → List User → Option User
find_user hit [] = none
find_user hit (u ∷ us) = if hit u then some u else find_user hit us

-- `deleted_at IS NULL`
unfoldable pub is_kept : User → Bool
is_kept u = elim u.deleted_at [ none ↦ true | some t ↦ false ]

unfoldable pub get_user_by_email : String → Db → Option User
unfolding find_user is_kept
get_user_by_email email db = find_user (λ u. str_eq u.email email && is_kept u) db.users

-- GetUserByEmailForUpdate and GetUserByEmailIncludingDeleted: no test of deleted_at.
unfoldable pub get_user_by_email_for_update : String → Db → Option User
unfolding find_user
get_user_by_email_for_update email db = find_user (λ u. str_eq u.email email) db.users

unfoldable pub get_user_by_id : ℕ → Db → Option User
unfolding find_user is_kept
get_user_by_id id db = find_user (λ u. u.id == id && is_kept u) db.users

unfoldable pub get_user_by_id_including_deleted : ℕ → Db → Option User
unfolding find_user
get_user_by_id_including_deleted id db = find_user (λ u. u.id == id) db.users

unfoldable pub has_email : String → List User → Bool
has_email email [] = false
has_email email (u ∷ us) = str_eq u.email email || has_email email us

-- A new row of users: the other columns have their defaults.
abbrev pub new_user : ℕ → String → Bool → Option String → String → User
new_user id email verified hash name = record {
  id = id;
  email = email;
  email_verified = verified;
  password_hash = hash;
  display_name = name;
  stripe_customer = none;
  plan = "free";
  deleted_at = none;
  free_full_educators_used = 0;
}

unfoldable pub add_user : User → Db → Db
add_user u db = record db { users = db.users ++ u ∷ []; next_id = suc db.next_id }

unfoldable pub create_user : String → String → String → Db → Option (Db × User)
unfolding has_email add_user
create_user email hash name db =
    let u = new_user db.next_id email false (some hash) name in
    if has_email email db.users then none else some (add_user u db, u)

-- ON CONFLICT (email) DO NOTHING: no row comes back.
unfoldable pub create_oauth_user_or_noop : String → String → Db → Option (Db × User)
unfolding has_email add_user
create_oauth_user_or_noop email name db =
    let u = new_user db.next_id email true none name in
    if has_email email db.users then none else some (add_user u db, u)

-- UPDATE users … WHERE …: the rows are changed in place.
unfoldable pub update_users : (User → Bool) → (User → User) → Db → Db
update_users hit change db = record db {
  users = map (λ (u : User). if hit u then change u else u) db.users;
}

unfoldable pub update_user_password : ℕ → String → Db → Db
unfolding update_users
update_user_password id hash db =
    update_users (λ u. u.id == id) (λ u. record u { password_hash = some hash }) db

unfoldable pub verify_user_email : ℕ → Db → Db
unfolding update_users
verify_user_email id db =
    update_users (λ u. u.id == id) (λ u. record u { email_verified = true }) db

unfoldable pub reactivate_user : ℕ → Db → Db
unfolding update_users
reactivate_user id db =
    update_users (λ u. u.id == id) (λ u. record u { deleted_at = none; email_verified = true }) db

unfoldable pub update_user_display_name : String → ℕ → Db → Db × Option User
unfolding update_users is_kept find_user
update_user_display_name name id db =
    let db' =
      update_users (λ u. u.id == id && is_kept u) (λ u. record u { display_name = name }) db in
    (db', find_user (λ u. u.id == id && is_kept u) db'.users)

unfoldable pub has_token : String → List AuthSession → Bool
has_token hash [] = false
has_token hash (s ∷ ss) = str_eq s.token_hash hash || has_token hash ss

unfoldable pub create_auth_session : ℕ → String → ℕ → Option String → Option String → Db → Option Db
unfolding has_token has_user
create_auth_session user hash expires ip agent db =
    let session : AuthSession = record {
      id = db.next_id;
      user = user;
      token_hash = hash;
      expires_at = expires;
      last_active = db.now;
      ip_address = ip;
      user_agent = agent;
      created_at = db.now;
    } in
    if has_token hash db.auth_sessions || not (has_user user db.users)
    then none
    else some
        (record db { auth_sessions = db.auth_sessions ++ session ∷ []; next_id = suc db.next_id })

unfoldable pub delete_auth_session : ℕ → Db → Db
delete_auth_session id db = record db {
  auth_sessions = select (λ (s : AuthSession). not (s.id == id)) db.auth_sessions;
}

unfoldable pub delete_user_auth_sessions : ℕ → Db → Db
delete_user_auth_sessions user db = record db {
  auth_sessions = select (λ (s : AuthSession). not (s.user == user)) db.auth_sessions;
}

-- The user is marked and the sessions are deleted in one statement.
unfoldable pub delete_account : ℕ → Db → Db
unfolding update_users is_kept delete_user_auth_sessions
delete_account id db =
    delete_user_auth_sessions id
      (update_users (λ u. u.id == id && is_kept u) (λ u. record u { deleted_at = some db.now }) db)

-- The JOIN with a user that is not deleted, by the session's user_id.
unfoldable pub with_user : AuthSession → Option User → Option (AuthSession × User)
with_user s none = none
with_user s (some u) = some (s, u)

unfoldable pub join_user : AuthSession → Db → Option (AuthSession × User)
unfolding get_user_by_id with_user
join_user s db = with_user s (get_user_by_id s.user db)

-- The row of the JOIN that a session makes, if it passes the WHERE clause.
unfoldable pub authenticated : String → Db → AuthSession → Option (AuthSession × User)
unfolding join_user
authenticated hash db s =
    if str_eq s.token_hash hash && ltb db.now s.expires_at then join_user s db else none

unfoldable pub or_else :
    Option (AuthSession × User) → Option (AuthSession × User) → Option (AuthSession × User)
or_else none later = later
or_else (some row) later = some row

unfoldable pub first_authenticated : String → Db → List AuthSession → Option (AuthSession × User)
unfolding authenticated or_else
first_authenticated hash db [] = none
first_authenticated hash db (s ∷ ss) =
    or_else (authenticated hash db s) (first_authenticated hash db ss)

unfoldable pub get_auth_session_by_token : String → Db → Option (AuthSession × User)
unfolding first_authenticated
get_auth_session_by_token hash db = first_authenticated hash db db.auth_sessions

unfoldable pub touch_auth_session : ℕ → Db → Db
touch_auth_session id db = record db {
  auth_sessions =
      map (λ (s : AuthSession). if s.id == id then record s { last_active = db.now } else s)
        db.auth_sessions;
}

unfoldable pub get_oauth_account : String → String → List OauthAccount → Option OauthAccount
get_oauth_account provider provider_id [] = none
get_oauth_account provider provider_id (a ∷ rest) =
    if str_eq a.provider provider && str_eq a.provider_id provider_id
    then some a
    else get_oauth_account provider provider_id rest

-- ON CONFLICT (provider, provider_id) DO NOTHING.
unfoldable pub link_oauth_account : ℕ → String → String → Db → Db
unfolding get_oauth_account
link_oauth_account user provider provider_id db =
    elim (get_oauth_account provider provider_id db.oauth_accounts) [
      | some a ↦ db
      | none ↦ record db {
        oauth_accounts =
            db.oauth_accounts
            ++ (record {
              id = db.next_id;
              user = user;
              provider = provider;
              provider_id = provider_id;
            })
              ∷ [];
        next_id = suc db.next_id;
      }
    ]
