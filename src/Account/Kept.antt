-- ===== src/Account/Kept.antt =====
-- OAuthLogin keeps every link that is there.
use mathlib.Core.Path.{subst}
use sabermatic_dev.Prelude.{
  ℕ, ◌≡◌, refl, ap, ◌∙◌, inl, inr, not, List, [], ◌∷◌, ◌++◌, Option, none, some, String,
  if◌then◌else◌, arith, Bool-cases, Option-cases,
}
use sabermatic_dev.Store.Rows.{Db, User, OauthAccount}
use sabermatic_dev.Store.Accounts.{
  get_oauth_account, link_oauth_account, verify_user_email, reactivate_user,
}
use sabermatic_dev.Session.Errors.{Result, ok, err, settle, ok_inj, Result-cases}
use sabermatic_dev.Account.{provision_new_user}
use sabermatic_dev.Account.Params.{Env, OauthLoginParams, normalize_email}
use sabermatic_dev.Account.OauthLogin.{
  LoginPath, Resolved, resolve_user, path_new_user, reactivated, linked_existing, existing_oauth,
  oauth_login, side_effects,
}
use sabermatic_dev.Account.Linked.{
  provision_new_user-KeepsLinks, create_auth_session-KeepsLinks, reactivate_user-KeepsLinks,
  verify_user_email-KeepsLinks, oauth_login-HasLoggedIn,
}
use sabermatic_dev.Account.Resolved.{IsKnown-resolved, new-resolved}

-- A link that was found is found still.
abbrev pub KeepsFound : Db → Db → Type 0
KeepsFound db db' =
    (provider provider_id : String) (a : OauthAccount)
    → get_oauth_account provider provider_id db.oauth_accounts ≡ some a
    → get_oauth_account provider provider_id db'.oauth_accounts ≡ some a

pub same_accounts : (db db' : Db) → db'.oauth_accounts ≡ db.oauth_accounts → KeepsFound db db'
same_accounts db db' same provider provider_id a found =
    ap (get_oauth_account provider provider_id) same ∙ found

-- A transaction that keeps what it must if it commits keeps it in any case.
pub settle-KeepsFound :
    {T : Type 0} (r : Result (T × Db)) (db : Db)
    → ((v : T × Db) → r ≡ ok v → KeepsFound db v.1)
    → KeepsFound db (settle r db).1
unfolding settle
settle-KeepsFound (err e) db kept = λ provider provider_id a found. found
settle-KeepsFound (ok v) db kept = kept v refl

append-found :
    (provider provider_id : String) (accounts new : List OauthAccount) (a : OauthAccount)
    → get_oauth_account provider provider_id accounts ≡ some a
    → get_oauth_account provider provider_id (accounts ++ new) ≡ some a
unfolding get_oauth_account
append-found provider provider_id [] new a h = absurd (ground arith)
append-found provider provider_id (x ∷ accounts) new a h =
    ground (arith, h, append-found provider provider_id accounts new a)

link-KeepsFound :
    (user : ℕ) (provider provider_id : String) (db : Db)
    → KeepsFound db (link_oauth_account user provider provider_id db)
unfolding link_oauth_account
link-KeepsFound user provider provider_id db =
    elim (Option-cases (get_oauth_account provider provider_id db.oauth_accounts)) [
      | inr (x, linked) ↦ rw (linked, link_oauth_account) (λ p i a found. found)
      | inl free ↦
          rw (free, link_oauth_account)
            (λ p i a found. append-found p i db.oauth_accounts _ a found)
    ]

linked-KeepsFound :
    (user : ℕ) (provider provider_id : String) (db d : Db)
    → d.oauth_accounts ≡ db.oauth_accounts
    → KeepsFound db (link_oauth_account user provider provider_id d)
linked-KeepsFound user provider provider_id db d same p i a found =
    link-KeepsFound user provider provider_id d p i a (same_accounts db d same p i a found)

effects-KeepsFound :
    (env : Env) (p : OauthLoginParams) (path : LoginPath) (user : User) (db linked : Db)
    → side_effects env p path user db ≡ ok linked
    → KeepsFound db linked
unfolding side_effects
effects-KeepsFound env p path_new_user user db linked =
    elim (Result-cases (provision_new_user env user.id db)) [
      | inl (x, failed) ↦ rw (failed, side_effects) (λ h. absurd (ground arith))
      | inr (d, done) ↦
          rw (done, side_effects)
            (λ h. subst (KeepsFound db) (ok_inj h) (
              linked-KeepsFound user.id p.provider p.provider_id db d
                (provision_new_user-KeepsLinks env user.id db d done).accounts))
    ]
effects-KeepsFound env p reactivated user db linked = λ h. subst (KeepsFound db) (ok_inj h) (
    linked-KeepsFound user.id p.provider p.provider_id db (reactivate_user user.id db)
      (reactivate_user-KeepsLinks user.id db).accounts)
effects-KeepsFound env p linked_existing user db linked = λ h. subst (KeepsFound db) (ok_inj h) (
    linked-KeepsFound user.id p.provider p.provider_id db
      (if not user.email_verified then verify_user_email user.id db else db)
      (elim (Bool-cases (not user.email_verified)) [
        | inl unverified ↦ rw unverified (verify_user_email-KeepsLinks user.id db).accounts
        | inr verified ↦ rw verified refl
      ]))
effects-KeepsFound env p existing_oauth user db linked =
    λ h. subst (KeepsFound db) (ok_inj h) (λ q i a found. found)

resolved-same :
    (email name : String) (o : Option OauthAccount) (db : Db) (found : Resolved)
    → resolve_user email name o db ≡ ok found
    → found.db.oauth_accounts ≡ db.oauth_accounts
resolved-same email name none db found h = (new-resolved email name db found h).0
resolved-same email name (some a) db found h =
    ap (λ (d : Db). d.oauth_accounts) (IsKnown-resolved email name a db found h).1

pub oauth_login-KeepsFound :
    (env : Env) (p : OauthLoginParams) (random : Option String) (db : Db)
    → KeepsFound db (oauth_login env p random db).1
unfolding oauth_login settle
oauth_login-KeepsFound env p random db = settle-KeepsFound _ db (λ v made.
    let parts = oauth_login-HasLoggedIn env p random db v.1 v.0 (ap (λ r. settle r db) made) in
    (λ q i a found.
      same_accounts parts.linked v.1
        (ap (λ (d : Db). d.oauth_accounts) parts.leaves
          ∙ (create_auth_session-KeepsLinks env _ _ _ _ parts.linked parts.session
              parts.stored).accounts)
        q i a
        (effects-KeepsFound env p parts.found.path parts.found.user parts.found.db parts.linked
          parts.effects q i a
          (same_accounts db parts.found.db
            (resolved-same (normalize_email env p.email) p.display_name _ db parts.found
              parts.resolved)
            q i a found))))
