-- ===== src/Account/Resolved.antt =====
-- OAuthLogin: whom an identity of a provider finds, and what the side effects do to its link.
use mathlib.Core.Path.{subst}
use sabermatic_dev.Prelude.{
  not, if◌then◌else◌, some_inj, ◌≡◌, refl, sym, ap, ◌∙◌, ◌⊎◌, inl, inr, Option, none, some, String,
  arith, Bool-cases, Option-cases,
}
use sabermatic_dev.Store.Rows.{Db, User, OauthAccount}
use sabermatic_dev.Store.Accounts.{
  get_oauth_account, get_user_by_id_including_deleted, get_user_by_email_for_update,
  create_oauth_user_or_noop, reactivate_user, verify_user_email, add_user, has_email,
}
use sabermatic_dev.Session.Errors.{ok, ok_inj, Result-cases}
use sabermatic_dev.Account.{provision_new_user}
use sabermatic_dev.Account.Params.{Env, OauthLoginParams}
use sabermatic_dev.Account.OauthLogin.{
  LoginPath, existing_oauth, linked_existing, reactivated, path_new_user, Resolved, path_of,
  resolve_user, resolve_email, resolve_created, side_effects,
}
use sabermatic_dev.Account.Sessions.{find_user-holds}
use sabermatic_dev.Account.Linked.{
  IsLinked, KeepsLinks, link_oauth_account-IsLinked, link_oauth_account-again,
  verify_user_email-KeepsLinks, reactivate_user-KeepsLinks, provision_new_user-KeepsLinks,
}

abbrev pub IsKnown : LoginPath → Type 0
IsKnown path = (path ≡ existing_oauth) ⊎ (path ≡ reactivated)

abbrev pub IsFirst : LoginPath → Type 0
IsFirst path = (path ≡ linked_existing) ⊎ (path ≡ reactivated) ⊎ (path ≡ path_new_user)

pub path_of-cases :
    (path : LoginPath) (user : User)
    → (path_of path user ≡ path) ⊎ (path_of path user ≡ reactivated)
unfolding path_of
path_of-cases path user = elim (Option-cases user.deleted_at) [
  | inl kept ↦ inl (rw kept refl)
  | inr (t, deleted) ↦ inr (rw deleted refl)
]

-- A login of an identity that has a user already.
pub IsKnown-resolved :
    (email name : String) (a : OauthAccount) (db : Db) (found : Resolved)
    → resolve_user email name (some a) db ≡ ok found
    → (found.user.id ≡ a.user) × (found.db ≡ db) × IsKnown found.path
unfolding resolve_user get_user_by_id_including_deleted
IsKnown-resolved email name a db found =
    elim (Option-cases (get_user_by_id_including_deleted a.user db)) [
      | inl gone ↦ rw (gone, resolve_user) (λ h. absurd (ground arith))
      | inr (u, has) ↦
          rw (has, resolve_user)
            (λ h.
              subst (λ (f : Resolved). (f.user.id ≡ a.user) × (f.db ≡ db) × IsKnown f.path)
                (ok_inj h)
                (
                  ground (arith, find_user-holds _ db.users u has),
                  refl,
                  path_of-cases existing_oauth u,
                ))
    ]

pub known-effects :
    (env : Env) (p : OauthLoginParams) (path : LoginPath) (user : User) (a : OauthAccount)
    (db linked : Db)
    → get_oauth_account p.provider p.provider_id db.oauth_accounts ≡ some a
    → IsKnown path
    → side_effects env p path user db ≡ ok linked
    → KeepsLinks db linked
unfolding side_effects
known-effects env p path user a db linked has (inl e) =
    rw e (λ h. subst (KeepsLinks db) (ok_inj h) (record { accounts = refl; users = refl }))
known-effects env p path user a db linked has (inr e) =
    let kept = reactivate_user-KeepsLinks user.id db in
    rw e (λ h.
      subst (KeepsLinks db)
        (sym (
            link_oauth_account-again user.id p.provider p.provider_id (reactivate_user user.id db) a
              (rw kept.accounts has))
          ∙ ok_inj h)
        kept)

-- A login of an identity that has none.
abbrev pub AsFirst : Db → Resolved → Type 0
AsFirst db found = (found.db.oauth_accounts ≡ db.oauth_accounts) × IsFirst found.path

pub as_first :
    (db : Db) (user : User)
    → AsFirst db (record { path = path_of linked_existing user; user = user; db = db })
as_first db user = (
  refl,
  elim (path_of-cases linked_existing user) [
    | inl kept ↦ inl kept
    | inr deleted ↦ inr (inl deleted)
  ],
)

pub created-accounts :
    (email name : String) (db d : Db) (u : User)
    → create_oauth_user_or_noop email name db ≡ some (d, u)
    → d.oauth_accounts ≡ db.oauth_accounts
unfolding create_oauth_user_or_noop add_user
created-accounts email name db d u = elim (Bool-cases (has_email email db.users)) [
  | inl taken ↦ rw taken (λ h. absurd (ground arith))
  | inr free ↦ rw free (λ h. ap (λ (x : Db × User). x.0.oauth_accounts) (sym (some_inj h)))
]

pub created-resolved :
    (email name : String) (o : Option (Db × User)) (db : Db) (found : Resolved)
    → create_oauth_user_or_noop email name db ≡ o
    → resolve_created email o db ≡ ok found
    → AsFirst db found
unfolding resolve_created
created-resolved email name (some (d, u)) db found made =
    λ h. subst (AsFirst db) (ok_inj h) (created-accounts email name db d u made, inr (inr refl))
created-resolved email name none db found made =
    elim (Option-cases (get_user_by_email_for_update email db)) [
      | inl gone ↦ rw (gone, resolve_created) (λ h. absurd (ground arith))
      | inr (u, has) ↦
          rw (has, resolve_created) (λ h. subst (AsFirst db) (ok_inj h) (as_first db u))
    ]

pub email-resolved :
    (email name : String) (o : Option User) (db : Db) (found : Resolved)
    → resolve_email email name o db ≡ ok found
    → AsFirst db found
unfolding resolve_email
email-resolved email name (some u) db found h = subst (AsFirst db) (ok_inj h) (as_first db u)
email-resolved email name none db found h =
    created-resolved email name (create_oauth_user_or_noop email name db) db found refl h

pub new-resolved :
    (email name : String) (db : Db) (found : Resolved)
    → resolve_user email name none db ≡ ok found
    → AsFirst db found
unfolding resolve_user
new-resolved email name db found =
    email-resolved email name (get_user_by_email_for_update email db) db found

pub new-effects :
    (env : Env) (p : OauthLoginParams) (path : LoginPath) (user : User) (db linked : Db)
    → get_oauth_account p.provider p.provider_id db.oauth_accounts ≡ none
    → IsFirst path
    → side_effects env p path user db ≡ ok linked
    → IsLinked p.provider p.provider_id user.id linked
unfolding side_effects
new-effects env p path user db linked none_yet (inl e) = rw e (λ h.
    subst (IsLinked p.provider p.provider_id user.id) (ok_inj h) (
      link_oauth_account-IsLinked user.id p.provider p.provider_id
        (if not user.email_verified then verify_user_email user.id db else db) (still ∙ none_yet)))
  where
    still :
        get_oauth_account p.provider p.provider_id
          (if not user.email_verified then verify_user_email user.id db else db).oauth_accounts
        ≡ get_oauth_account p.provider p.provider_id db.oauth_accounts
    still = elim (Bool-cases (not user.email_verified)) [
      | inl unverified ↦ rw (unverified, (verify_user_email-KeepsLinks user.id db).accounts) refl
      | inr verified ↦ rw verified refl
    ]
new-effects env p path user db linked none_yet (inr (inl e)) = rw e (λ h.
    subst (IsLinked p.provider p.provider_id user.id) (ok_inj h) (
      link_oauth_account-IsLinked user.id p.provider p.provider_id (reactivate_user user.id db)
        (rw (reactivate_user-KeepsLinks user.id db).accounts none_yet)))
new-effects env p path user db linked none_yet (inr (inr e)) =
    elim (Result-cases (provision_new_user env user.id db)) [
      | inl (x, failed) ↦ rw (e, side_effects, failed) (λ h. absurd (ground arith))
      | inr (d, done) ↦
          rw (e, side_effects, done)
            (λ h. subst (IsLinked p.provider p.provider_id user.id) (ok_inj h) (
              link_oauth_account-IsLinked user.id p.provider p.provider_id d
                (rw (provision_new_user-KeepsLinks env user.id db d done).accounts none_yet)))
    ]
