-- ===== src/Account/OauthLogin.antt =====
-- internal/backend/oauth.go: OAuthLogin. Between its statements no other transaction is modelled,
-- so the insert of a new user meets no other insert of the same email.
use sabermatic_dev.Prelude.{ℕ, Bool, not, Option, none, some, String, str_eq, if◌then◌else◌}
use sabermatic_dev.Store.Rows.{Db, User, OauthAccount}
use sabermatic_dev.Store.Accounts.{
  get_oauth_account, get_user_by_id_including_deleted, get_user_by_email_for_update,
  create_oauth_user_or_noop, reactivate_user, verify_user_email, link_oauth_account,
}
use sabermatic_dev.Session.Errors.{settle, Result, ok, ◌>>=◌, found_or, internal}
use sabermatic_dev.Account.{provision_new_user, create_auth_session}
use sabermatic_dev.Account.Params.{Env, OauthLoginParams, normalize_email}

pub data LoginPath : Type 0 where
  existing_oauth linked_existing reactivated path_new_user : LoginPath

pub record Resolved : Type 0 where
  pub path : LoginPath
  pub user : User
  pub db : Db

pub record OauthLoginResult : Type 0 where
  pub user : ℕ
  pub email : String
  pub token : String
  pub needs_profile : Bool

-- A user that is found: reactivated if it is deleted.
unfoldable pub path_of : LoginPath → User → LoginPath
path_of path user = elim user.deleted_at [ none ↦ path | some t ↦ reactivated ]

-- (C) A new user, or the row of another request that was first.
unfoldable pub resolve_created : String → Option (Db × User) → Db → Result Resolved
unfolding path_of
resolve_created email (some (db', user)) db =
    ok (record { path = path_new_user; user = user; db = db' })
resolve_created email none db = do
  user ← found_or (get_user_by_email_for_update email db) internal
  ok (record { path = path_of linked_existing user; user = user; db = db })

-- (B) A user with this email.
unfoldable pub resolve_email : String → String → Option User → Db → Result Resolved
unfolding path_of resolve_created
resolve_email email name (some user) db =
    ok (record { path = path_of linked_existing user; user = user; db = db })
resolve_email email name none db =
    resolve_created email (create_oauth_user_or_noop email name db) db

-- (A) A user who has come by this provider before.
unfoldable pub resolve_user : String → String → Option OauthAccount → Db → Result Resolved
unfolding path_of resolve_email
resolve_user email name (some account) db = do
  user ← found_or (get_user_by_id_including_deleted account.user db) internal
  ok (record { path = path_of existing_oauth user; user = user; db = db })
resolve_user email name none db =
    resolve_email email name (get_user_by_email_for_update email db) db

module _ (env : Env) where
  unfoldable pub side_effects : OauthLoginParams → LoginPath → User → Db → Result Db
  side_effects p path_new_user user db = do
    provisioned ← provision_new_user env user.id db
    ok (link_oauth_account user.id p.provider p.provider_id provisioned)
  side_effects p reactivated user db =
      ok (link_oauth_account user.id p.provider p.provider_id (reactivate_user user.id db))
  side_effects p linked_existing user db =
      let db' = if not user.email_verified then verify_user_email user.id db else db in
      ok (link_oauth_account user.id p.provider p.provider_id db')
  side_effects p existing_oauth user db = ok db

  unfoldable pub oauth_login : OauthLoginParams → Option String → Db → Result OauthLoginResult × Db
  unfolding settle resolve_user side_effects normalize_email create_auth_session
  oauth_login p random db =
      settle
        (do
          let email = normalize_email env p.email
          found ←
              resolve_user email p.display_name
                (get_oauth_account p.provider p.provider_id db.oauth_accounts) db
          linked ← side_effects p found.path found.user found.db
          session ← create_auth_session env found.user.id p.ip p.user_agent random linked
          ok (
            record {
              user = found.user.id;
              email = found.user.email;
              token = session.0;
              needs_profile = str_eq found.user.display_name "";
            },
            session.1,
          ))
        db
