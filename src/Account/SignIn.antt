-- ===== src/Account/SignIn.antt =====
-- Login: the token that it gives.
use mathlib.Core.Path.{subst}
use text.Mathlib.TextPositions.{eq_refl}
use sabermatic_dev.Prelude.{
  some_inj, ℕ, suc, ◌+◌, ◌≡◌, refl, sym, ap, ◌∙◌, inl, inr, Bool, true, false, not, ◌&&◌, ◌||◌,
  List, [], ◌∷◌, ◌++◌, Option, none, some, String, ltb, ◌==◌, if◌then◌else◌, arith, Bool-cases,
  Option-cases,
}
use sabermatic_dev.Store.Rows.{Db, User, AuthSession}
use sabermatic_dev.Store.Accounts
use sabermatic_dev.Store.Accounts.{
  find_user, is_kept, get_user_by_id, get_user_by_email, get_auth_session_by_token, authenticated,
  first_authenticated, or_else, join_user, with_user, has_token,
}
use sabermatic_dev.Store.Grants.Create.{has_user}
use sabermatic_dev.Session.Errors.{settle, ok, ok_inj, Result-cases}
use sabermatic_dev.Account.{credentials, login, create_auth_session}
use sabermatic_dev.Account.Params.{
  Env, LoginParams, LoginResult, normalize_email, parse_client_ip, text_or_null,
}
use sabermatic_dev.Account.Access.{HasCredentials, credentials-HasCredentials}
use sabermatic_dev.Account.Sessions.{
  first_authenticated-unknown, first_authenticated-append, get_user_by_id-holds,
  get_user_by_email-holds,
}

-- A row that passes another test is reason enough that one is found.
find_user-other :
    (hit other : User → Bool) (us : List User) (u : User)
    → find_user hit us ≡ some u
    → other u ≡ true
    → (v : User) × (find_user other us ≡ some v)
unfolding find_user
find_user-other hit other [] u = λ h k. absurd (ground arith)
find_user-other hit other (x ∷ us) u = elim (Bool-cases (other x)) [
  | inl first ↦ rw first (λ h k. (x, refl))
  | inr later ↦ rw later (elim (Bool-cases (hit x)) [
    | inl here ↦ rw here (λ h k. absurd (ground (arith, sym (ap other (some_inj h)) ∙ later, k)))
    | inr there ↦ rw there (find_user-other hit other us u)
  ])
]

abbrev pub at_time : ℕ → Db → Db
at_time t db = record db { now = t }

-- Who a new session lets in, at any time.
pub record LetsIn (user expires : ℕ) (hash : String) (t : ℕ) (db' : Db) : Type 0 where
  pub session : AuthSession
  pub found : User
  pub of_user : found.id ≡ user
  pub is_kept : is_kept found ≡ true
  pub lookup :
      get_auth_session_by_token hash (at_time t db')
      ≡ (if ltb t expires then some (session, found) else none)

-- The row of a new session.
abbrev new_session : ℕ → String → ℕ → Option String → Option String → Db → AuthSession
new_session user hash expires ip agent db = record {
  id = db.next_id;
  user = user;
  token_hash = hash;
  expires_at = expires;
  last_active = db.now;
  ip_address = ip;
  user_agent = agent;
  created_at = db.now;
}

abbrev with_session : AuthSession → Db → Db
with_session s db = record db {
  auth_sessions = db.auth_sessions ++ s ∷ [];
  next_id = suc db.next_id;
}

new_session-lookup :
    (s : AuthSession) (db : Db) (t : ℕ) (u : User)
    → has_token s.token_hash db.auth_sessions ≡ false
    → get_user_by_id s.user db ≡ some u
    → get_auth_session_by_token s.token_hash (at_time t (with_session s db))
      ≡ (if ltb t s.expires_at then some (s, u) else none)
unfolding get_auth_session_by_token first_authenticated or_else authenticated join_user with_user
    get_user_by_id
new_session-lookup s db t u fresh found =
    let d = at_time t (with_session s db) in
    let joined : get_user_by_id s.user d ≡ some u = found in
    first_authenticated-append s.token_hash d db.auth_sessions (s ∷ [])
      (first_authenticated-unknown s.token_hash d db.auth_sessions fresh)
    ∙ elim (Bool-cases (ltb t s.expires_at)) [
      | inl live ↦ rw (eq_refl s.token_hash, live, joined, authenticated, join_user) refl
      | inr over ↦ rw (eq_refl s.token_hash, over, authenticated) refl
    ]

create_auth_session-LetsIn :
    (user : ℕ) (hash : String) (expires : ℕ) (ip agent : Option String) (db db' : Db) (t : ℕ)
    (u : User)
    → get_user_by_id user db ≡ some u
    → Accounts.create_auth_session user hash expires ip agent db ≡ some db'
    → LetsIn user expires hash t db'
unfolding Accounts.create_auth_session
create_auth_session-LetsIn user hash expires ip agent db db' t u found =
    elim (Bool-cases (has_token hash db.auth_sessions || not (has_user user db.users))) [
      | inl refused ↦ rw refused (λ h. absurd (ground arith))
      | inr fresh ↦ rw fresh (λ h. subst (LetsIn user expires hash t) (some_inj h) (record {
        session = new_session user hash expires ip agent db;
        found = u;
        of_user = (get_user_by_id-holds user db u found).0;
        is_kept = (get_user_by_id-holds user db u found).1;
        lookup =
            new_session-lookup (new_session user hash expires ip agent db) db t u
              (ground (arith, fresh)) found;
      }))
    ]

-- createAuthSession has stored the hash of the token that it gives.
pub create_auth_session-stored :
    (env : Env) (user : ℕ) (ip agent : String) (random : Option String) (db : Db) (v : String × Db)
    → create_auth_session env user ip agent random db ≡ ok v
    → Accounts.create_auth_session user
        (env.hash_token v.0)
        (db.now + env.session_ttl)
        (parse_client_ip env ip)
        (text_or_null agent)
        db
      ≡ some v.1
unfolding create_auth_session
create_auth_session-stored env user ip agent none db v = λ h. absurd (ground arith)
create_auth_session-stored env user ip agent (some token) db v =
    elim (Option-cases (
      Accounts.create_auth_session user (env.hash_token token) (db.now + env.session_ttl)
        (parse_client_ip env ip) (text_or_null agent) db)) [
          | inl refused ↦ rw (refused, create_auth_session) (λ h. absurd (ground arith))
          | inr (stored, made) ↦
              rw (made, create_auth_session)
                (λ h.
                  subst
                    (λ (w : String × Db).
                      Accounts.create_auth_session user (env.hash_token w.0)
                        (db.now + env.session_ttl) (parse_client_ip env ip) (text_or_null agent) db
                      ≡ some w.1)
                    (ok_inj h) made)
        ]

-- The password was right, and the token lets the user in until it expires.
pub record IsLoggedIn (env : Env) (p : LoginParams) (db db' : Db) (t : ℕ) (r : LoginResult)
    : Type 0 where
  pub user : User
  pub by_password : HasCredentials env p db user
  pub of_user : r.user ≡ user.id
  pub lets_in : LetsIn r.user (db.now + env.session_ttl) (env.hash_token r.token) t db'

-- Someone found by email is found by id.
email-id :
    (email : String) (db : Db) (u : User)
    → get_user_by_email email db ≡ some u
    → (v : User) × (get_user_by_id u.id db ≡ some v)
unfolding get_user_by_email get_user_by_id
email-id email db u found =
    let both = get_user_by_email-holds email db u found in
    find_user-other _ (λ w. w.id == u.id && is_kept w) db.users u found (ground (arith, both))

stored_login :
    (env : Env) (p : LoginParams) (random : Option String) (db : Db) (t : ℕ) (u : User)
    (v : String × Db)
    → credentials env p db ≡ ok u
    → create_auth_session env u.id p.ip p.user_agent random db ≡ ok v
    → IsLoggedIn env p db v.1 t (record { user = u.id; email = u.email; token = v.0 })
stored_login env p random db t u v right made =
    let has = credentials-HasCredentials env p db u right in
    let (w, found) = email-id (normalize_email env p.email) db u has.found in
    record {
      user = u;
      by_password = has;
      of_user = refl;
      lets_in =
          create_auth_session-LetsIn u.id (env.hash_token v.0) (db.now + env.session_ttl)
            (parse_client_ip env p.ip) (text_or_null p.user_agent) db v.1 t w found
            (create_auth_session-stored env u.id p.ip p.user_agent random db v made);
    }

-- Login gives a token only to someone with the email and the password of a user who is not
-- deleted, and at any time `t` later the token finds that user, until its lifetime is over; then
-- it finds nobody.
pub login-IsLoggedIn :
    (env : Env) (p : LoginParams) (random : Option String) (db db' : Db) (r : LoginResult) (t : ℕ)
    → login env p random db ≡ (ok r, db')
    → IsLoggedIn env p db db' t r
unfolding login
login-IsLoggedIn env p random db db' r t = elim (Result-cases (credentials env p db)) [
  | inl (e, wrong) ↦ rw (wrong, login) (λ h. absurd (unfold settle in ground arith))
  | inr (u, right) ↦
      elim (Result-cases (create_auth_session env u.id p.ip p.user_agent random db)) [
        | inl (e, failed) ↦ rw (right, failed, login) (λ h. absurd (unfold settle in ground arith))
        | inr (v, made) ↦
            rw (right, made, login)
              (λ h. subst (IsLoggedIn env p db db' t) (ok_inj (ap (λ x. x.0) h)) (
                subst
                  (λ d.
                    IsLoggedIn env p db d t (record { user = u.id; email = u.email; token = v.0 }))
                  (ap (λ x. x.1) h) (stored_login env p random db t u v right made)))
      ]
]
