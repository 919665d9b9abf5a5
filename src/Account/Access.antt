-- ===== src/Account/Access.antt =====
-- Who gets in: what a deleted account, a new password and a sign-in change.
use sabermatic_dev.Prelude.{
  ℕ, ◌≡◌, ◌≢◌, sym, ap, ◌∙◌, inl, inr, true, false, List, Option, none, some, String, arith, All,
  Bool-cases, Option-cases,
}
use sabermatic_dev.Store.Rows.{Db, User, AuthSession}
use sabermatic_dev.Store.Accounts
use sabermatic_dev.Store.Accounts.{is_kept, get_user_by_email}
use sabermatic_dev.Session.Errors.{Result, ok, err, ok_inj}
use sabermatic_dev.Account.{credentials}
use sabermatic_dev.Account.Params.{Env, LoginParams, normalize_email}

-- The user is found by the normalised email, has a password, and the given one matches it.
pub record HasCredentials (env : Env) (p : LoginParams) (db : Db) (u : User) : Type 0 where
  pub found : get_user_by_email (normalize_email env p.email) db ≡ some u
  pub hash : String
  pub stored_hash : u.password_hash ≡ some hash
  pub matches : env.check_password hash p.password ≡ true

pub credentials-passed :
    (env : Env) (p : LoginParams) (db : Db) (u : User) (hash : String)
    → get_user_by_email (normalize_email env p.email) db ≡ some u
    → u.password_hash ≡ some hash
    → env.check_password hash p.password ≡ true
    → credentials env p db ≡ ok u
unfolding credentials
credentials-passed env p db u hash found has right = simp (found, has, right, credentials)

pub credentials-HasCredentials :
    (env : Env) (p : LoginParams) (db : Db) (u : User)
    → credentials env p db ≡ ok u
    → HasCredentials env p db u
unfolding credentials
credentials-HasCredentials env p db u =
    elim (Option-cases (get_user_by_email (normalize_email env p.email) db)) [
      | inl missing ↦ rw (missing, credentials) (λ h. absurd (ground arith))
      | inr (v, found) ↦ elim (Option-cases v.password_hash) [
        | inl no_password ↦ rw (found, no_password, credentials) (λ h. absurd (ground arith))
        | inr (hash, has) ↦ elim (Bool-cases (env.check_password hash p.password)) [
          | inr wrong ↦ rw (found, has, wrong, credentials) (λ h. absurd (ground arith))
          | inl right ↦ λ h.
              let same : v ≡ u =
                ok_inj (sym (credentials-passed env p db v hash found has right) ∙ h) in
              record {
                found = found ∙ ap some same;
                hash = hash;
                stored_hash = ap (λ (w : User). w.password_hash) (sym same) ∙ has;
                matches = right;
              }
        ]
      ]
    ]

-- No row of this id is kept.
abbrev pub IsGone : ℕ → List User → Type 0
IsGone id us = All (λ (u : User). u.id ≡ id → is_kept u ≡ false) us

-- What is found is not this user.
abbrev pub TokenExcludes : ℕ → Option (AuthSession × User) → Type 0
TokenExcludes id none = Unit {0}
TokenExcludes id (some (s, u)) = u.id ≢ id

abbrev pub LoginExcludes : ℕ → Result User → Type 0
LoginExcludes id (err e) = Unit {0}
LoginExcludes id (ok u) = u.id ≢ id

abbrev pub RowExcludes : ℕ → Option User → Type 0
RowExcludes id none = Unit {0}
RowExcludes id (some u) = u.id ≢ id
