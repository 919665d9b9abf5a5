-- ===== src/Account/SameUser.antt =====
-- OAuthLogin twice: the links decide whose login it is.
use mathlib.Core.Path.{subst}
use sabermatic_dev.Prelude.{List, ℕ, ◌≡◌, refl, sym, ap, ◌∙◌, Option, none, some, String, length}
use sabermatic_dev.Store.Rows.{Db, OauthAccount}
use sabermatic_dev.Store.Accounts.{get_oauth_account}
use sabermatic_dev.Session.Errors.{ok}
use sabermatic_dev.Account.Params.{Env, OauthLoginParams, normalize_email}
use sabermatic_dev.Account.OauthLogin.{OauthLoginResult, resolve_user, oauth_login}
use sabermatic_dev.Account.Linked.{
  IsLinked, create_auth_session-KeepsLinks, HasLoggedIn, oauth_login-HasLoggedIn,
}
use sabermatic_dev.Account.Later.{AccountOp, run, run-IsLinked}
use sabermatic_dev.Account.Resolved.{IsKnown-resolved, known-effects, new-effects, new-resolved}

-- After a login the identity belongs to the user that logged in.
oauth_login-IsLinked :
    (env : Env) (p : OauthLoginParams) (random : Option String) (db db' : Db) (r : OauthLoginResult)
    → oauth_login env p random db ≡ (ok r, db')
    → IsLinked p.provider p.provider_id r.user db'
oauth_login-IsLinked env p random db db' r h =
    go (get_oauth_account p.provider p.provider_id db.oauth_accounts) refl
  where
    parts : HasLoggedIn env p random db db' r
    parts = oauth_login-HasLoggedIn env p random db db' r h

    email : String
    email = normalize_email env p.email

    accounts : List OauthAccount → Option OauthAccount
    accounts = get_oauth_account p.provider p.provider_id

    resolved :
        {o : Option OauthAccount}
        → get_oauth_account p.provider p.provider_id db.oauth_accounts ≡ o
        → resolve_user email p.display_name o db ≡ ok parts.found
    resolved e =
        subst (λ o. resolve_user email p.display_name o db ≡ ok parts.found) e parts.resolved

    -- What the links of `linked` say, those of the database that is left say.
    left :
        IsLinked p.provider p.provider_id parts.found.user.id parts.linked
        → IsLinked p.provider p.provider_id r.user db'
    left (a, has, his) = (
      a,
      rw
          (
            parts.leaves,
            (create_auth_session-KeepsLinks env _ _ _ _ parts.linked parts.session
                parts.stored).accounts,
          )
          has,
      his ∙ sym parts.of_user,
    )

    go :
        (o : Option OauthAccount)
        → get_oauth_account p.provider p.provider_id db.oauth_accounts ≡ o
        → IsLinked p.provider p.provider_id r.user db'
    go none e =
        let first = new-resolved email p.display_name db parts.found (resolved e) in
        left (
          new-effects env p parts.found.path parts.found.user parts.found.db parts.linked
            (ap accounts first.0 ∙ e) first.1 parts.effects)
    go (some a) e =
        let known = IsKnown-resolved email p.display_name a db parts.found (resolved e) in
        let has = ap (λ (d : Db). accounts d.oauth_accounts) known.1 ∙ e in
        let kept =
          known-effects env p parts.found.path parts.found.user a parts.found.db parts.linked has
            known.2 parts.effects in
        left (a, ap accounts kept.accounts ∙ has, sym known.0)

-- A login of an identity that belongs to a user.
oauth_login-known :
    (env : Env) (p : OauthLoginParams) (random : Option String) (db db' : Db) (r : OauthLoginResult)
    (user : ℕ)
    → IsLinked p.provider p.provider_id user db
    → oauth_login env p random db ≡ (ok r, db')
    → (r.user ≡ user) × (length db'.users ≡ length db.users)
oauth_login-known env p random db db' r user (a, has, his) h =
    let parts = oauth_login-HasLoggedIn env p random db db' r h in
    let known = IsKnown-resolved (normalize_email env p.email) p.display_name a db parts.found (
      subst (λ o. resolve_user (normalize_email env p.email) p.display_name o db ≡ ok parts.found)
        has parts.resolved) in
    let kept =
      known-effects env p parts.found.path parts.found.user a parts.found.db parts.linked
        (rw known.1 has) known.2 parts.effects in
    let stored =
      create_auth_session-KeepsLinks env _ _ _ _ parts.linked parts.session parts.stored in
    (
      parts.of_user ∙ known.0 ∙ his,
      ap (λ (d : Db). length d.users) parts.leaves
          ∙ stored.users
          ∙ kept.users
          ∙ ap (λ (d : Db). length d.users) known.1,
    )

-- Once an identity of a provider has logged in, every later login of it that succeeds is a login of
-- the same user, under whatever email the provider then gives, and makes no user: whatever methods
-- on accounts run in between, with whatever results, also logins by this provider, by another and
-- the user's deletion, and however much time passes.
pub oauth_login-same_user :
    (env : Env) (p q : OauthLoginParams) (r s : Option String) (ops : List AccountOp)
    (db db' db'' : Db) (x y : OauthLoginResult)
    → q.provider ≡ p.provider
    → q.provider_id ≡ p.provider_id
    → oauth_login env p r db ≡ (ok x, db')
    → oauth_login env q s (run env ops db') ≡ (ok y, db'')
    → (y.user ≡ x.user) × (length db''.users ≡ length (run env ops db').users)
oauth_login-same_user env p q r s ops db db' db'' x y same_provider same_id first second =
    oauth_login-known env q s (run env ops db') db'' y x.user
      (run-IsLinked env ops q.provider q.provider_id x.user db'
        (rw (same_provider, same_id) (oauth_login-IsLinked env p r db db' x first)))
      second
