-- ===== src/Account/Linked.antt =====
-- OAuthLogin: an identity of a provider stays with its user.
use mathlib.Core.Path.{subst}
use text.Mathlib.TextPositions.{eq_refl}
use sabermatic_dev.Prelude.{
  some_inj, ℕ, zero, suc, ◌≡◌, refl, sym, ap, inl, inr, true, not, ◌||◌, List, [], ◌∷◌, ◌++◌, map,
  Option, none, some, String, str_eq, arith, length, Bool-cases, Option-cases,
}
use sabermatic_dev.Prelude.Int.{ℤ, pos, negsuc}
use sabermatic_dev.Billing.{free_trial_minutes}
use sabermatic_dev.Store.Rows.{Db, OauthAccount}
use sabermatic_dev.Store.Accounts
use sabermatic_dev.Store.Accounts.{
  get_oauth_account, reactivate_user, verify_user_email, link_oauth_account, has_token,
}
use sabermatic_dev.Store.Grants.Create.{ensure_free_grant, insert_grant, has_free_grant, has_user}
use sabermatic_dev.Session.Errors.{settle, ok, ok_inj, Result-cases}
use sabermatic_dev.Account.{provision_new_user, create_auth_session}
use sabermatic_dev.Account.Params.{Env, OauthLoginParams, normalize_email}
use sabermatic_dev.Account.OauthLogin.{
  Resolved, OauthLoginResult, resolve_user, side_effects, oauth_login,
}
use sabermatic_dev.Account.SignIn.{create_auth_session-stored}

-- The identity belongs to the user.
abbrev pub IsLinked : String → String → ℕ → Db → Type 0
IsLinked provider provider_id user db =
    (a : OauthAccount) × (get_oauth_account provider provider_id db.oauth_accounts ≡ some a)
    × (a.user ≡ user)

-- A step that adds no user and keeps the links.
pub record KeepsLinks (db db' : Db) : Type 0 where
  pub accounts : db'.oauth_accounts ≡ db.oauth_accounts
  pub users : length db'.users ≡ length db.users

get_oauth_account-append :
    (provider provider_id : String) (accounts : List OauthAccount) (a : OauthAccount)
    → get_oauth_account provider provider_id accounts ≡ none
    → str_eq a.provider provider ≡ true
    → str_eq a.provider_id provider_id ≡ true
    → get_oauth_account provider provider_id (accounts ++ a ∷ []) ≡ some a
unfolding get_oauth_account
get_oauth_account-append provider provider_id [] a h e f = ground arith
get_oauth_account-append provider provider_id (x ∷ accounts) a h e f =
    ground (arith, h, get_oauth_account-append provider provider_id accounts a)

pub link_oauth_account-IsLinked :
    (user : ℕ) (provider provider_id : String) (db : Db)
    → get_oauth_account provider provider_id db.oauth_accounts ≡ none
    → IsLinked provider provider_id user (link_oauth_account user provider provider_id db)
unfolding link_oauth_account
link_oauth_account-IsLinked user provider provider_id db h =
    rw (h, link_oauth_account)
      (
        _,
        get_oauth_account-append provider provider_id db.oauth_accounts _ h (eq_refl provider)
            (eq_refl provider_id),
        refl,
      )

pub link_oauth_account-again :
    (user : ℕ) (provider provider_id : String) (db : Db) (a : OauthAccount)
    → get_oauth_account provider provider_id db.oauth_accounts ≡ some a
    → link_oauth_account user provider provider_id db ≡ db
unfolding link_oauth_account
link_oauth_account-again user provider provider_id db a h = rw (h, link_oauth_account) refl

length-map : {A B : Type 0} (f : A → B) (xs : List A) → length (map f xs) ≡ length xs
length-map f [] = refl
length-map f (x ∷ xs) = ap suc (length-map f xs)

pub reactivate_user-KeepsLinks : (id : ℕ) (db : Db) → KeepsLinks db (reactivate_user id db)
unfolding reactivate_user
reactivate_user-KeepsLinks id db = record { accounts = refl; users = length-map _ db.users }

pub verify_user_email-KeepsLinks : (id : ℕ) (db : Db) → KeepsLinks db (verify_user_email id db)
unfolding verify_user_email
verify_user_email-KeepsLinks id db = record { accounts = refl; users = length-map _ db.users }

ensure_free_grant-KeepsLinks :
    (user : ℕ) (minutes : ℤ) (expires : ℕ) (db db' : Db)
    → ensure_free_grant user minutes expires db ≡ some db'
    → KeepsLinks db db'
unfolding ensure_free_grant insert_grant
ensure_free_grant-KeepsLinks user (pos zero) expires db db' = λ h. absurd (ground arith)
ensure_free_grant-KeepsLinks user (negsuc n) expires db db' = λ h. absurd (ground arith)
ensure_free_grant-KeepsLinks user (pos (suc n)) expires db db' =
    elim (Bool-cases (has_free_grant user db.grants)) [
      | inl had ↦
          rw had
            (λ h. subst (KeepsLinks db) (some_inj h) (record { accounts = refl; users = refl }))
      | inr new ↦ elim (Bool-cases (has_user user db.users)) [
        | inl known ↦
            rw (new, known)
              (λ h. subst (KeepsLinks db) (some_inj h) (record { accounts = refl; users = refl }))
        | inr stranger ↦ rw (new, stranger) (λ h. absurd (ground arith))
      ]
    ]

pub provision_new_user-KeepsLinks :
    (env : Env) (user : ℕ) (db db' : Db)
    → provision_new_user env user db ≡ ok db'
    → KeepsLinks db db'
unfolding provision_new_user
provision_new_user-KeepsLinks env user db db' =
    elim (Option-cases
      (ensure_free_grant user (pos free_trial_minutes) (env.ten_years_after db.now) db)) [
        | inl refused ↦ rw (refused, provision_new_user) (λ h. absurd (ground arith))
        | inr (d, made) ↦
            rw (made, provision_new_user)
              (λ h.
                subst (KeepsLinks db) (ok_inj h) (ensure_free_grant-KeepsLinks user _ _ db d made))
      ]

create_session-KeepsLinks :
    (user : ℕ) (hash : String) (expires : ℕ) (ip agent : Option String) (db db' : Db)
    → Accounts.create_auth_session user hash expires ip agent db ≡ some db'
    → KeepsLinks db db'
unfolding Accounts.create_auth_session
create_session-KeepsLinks user hash expires ip agent db db' =
    elim (Bool-cases (has_token hash db.auth_sessions || not (has_user user db.users))) [
      | inl refused ↦ rw refused (λ h. absurd (ground arith))
      | inr fresh ↦
          rw fresh
            (λ h. subst (KeepsLinks db) (some_inj h) (record { accounts = refl; users = refl }))
    ]

pub create_auth_session-KeepsLinks :
    (env : Env) (user : ℕ) (ip agent : String) (random : Option String) (db : Db) (v : String × Db)
    → create_auth_session env user ip agent random db ≡ ok v
    → KeepsLinks db v.1
create_auth_session-KeepsLinks env user ip agent random db v h =
    create_session-KeepsLinks user _ _ _ _ db v.1
      (create_auth_session-stored env user ip agent random db v h)

-- The parts of a login that has succeeded.
pub record HasLoggedIn (env : Env) (p : OauthLoginParams) (random : Option String) (db db' : Db)
    (r : OauthLoginResult) : Type 0 where
  pub found : Resolved
  pub linked : Db
  pub session : String × Db
  pub resolved :
      resolve_user
        (normalize_email env p.email)
        p.display_name
        (get_oauth_account p.provider p.provider_id db.oauth_accounts)
        db
      ≡ ok found
  pub effects : side_effects env p found.path found.user found.db ≡ ok linked
  pub stored : create_auth_session env found.user.id p.ip p.user_agent random linked ≡ ok session
  pub of_user : r.user ≡ found.user.id
  pub leaves : db' ≡ session.1

pub oauth_login-HasLoggedIn :
    (env : Env) (p : OauthLoginParams) (random : Option String) (db db' : Db) (r : OauthLoginResult)
    → oauth_login env p random db ≡ (ok r, db')
    → HasLoggedIn env p random db db' r
unfolding oauth_login settle
oauth_login-HasLoggedIn env p random db db' r =
    elim (Result-cases (
      resolve_user (normalize_email env p.email) p.display_name
        (get_oauth_account p.provider p.provider_id db.oauth_accounts) db)) [
          | inl (e, x) ↦ rw (x, oauth_login) (λ h. absurd (ground arith))
          | inr (found, resolved) ↦
              elim (Result-cases (side_effects env p found.path found.user found.db)) [
                | inl (e, x) ↦ rw (resolved, x, oauth_login) (λ h. absurd (ground arith))
                | inr (linked, effects) ↦
                    elim (Result-cases
                      (create_auth_session env found.user.id p.ip p.user_agent random linked)) [
                        | inl (e, x) ↦
                            rw (resolved, effects, x, oauth_login) (λ h. absurd (ground arith))
                        | inr (session, stored) ↦
                            rw (resolved, effects, stored, oauth_login)
                              (λ h. record {
                                found = found;
                                linked = linked;
                                session = session;
                                resolved = resolved;
                                effects = effects;
                                stored = stored;
                                of_user = sym (
                                    ap (λ (x : OauthLoginResult). x.user)
                                      (ok_inj (ap (λ x. x.0) h)));
                                leaves = sym (ap (λ x. x.1) h);
                              })
                      ]
              ]
        ]
