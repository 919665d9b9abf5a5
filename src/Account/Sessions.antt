-- ===== src/Account/Sessions.antt =====
-- The rows of auth_sessions, by the user who holds them, and what a token finds.
use mathlib.Core.Path.{subst}
use sabermatic_dev.Prelude.{
  some_inj, ℕ, ◌≡◌, refl, inl, inr, Bool, true, false, not, ◌&&◌, List, [], ◌∷◌, ◌++◌, Option, none,
  some, String, str_eq, ltb, ◌==◌, arith, All, select, Bool-cases,
}
use sabermatic_dev.Store.Rows.{Db, User, AuthSession}
use sabermatic_dev.Store.Accounts.{
  find_user, is_kept, get_user_by_id, get_user_by_email, join_user, with_user, authenticated,
  or_else, first_authenticated, has_token,
}

-- No row of the table is of this user.
abbrev pub NoSession : ℕ → List AuthSession → Type 0
NoSession user ss = All (λ (s : AuthSession). (s.user == user) ≡ false) ss

pub select-NoSession :
    (user : ℕ) (ss : List AuthSession)
    → NoSession user (select (λ (s : AuthSession). not (s.user == user)) ss)
select-NoSession user [] = tt
select-NoSession user (s ∷ ss) = elim (Bool-cases (s.user == user)) [
  | inl his ↦ rw his (select-NoSession user ss)
  | inr other ↦ rw other (other, select-NoSession user ss)
]

-- A property of the rows that tokens find.
pub find_user-holds :
    (hit : User → Bool) (us : List User) (u : User) → find_user hit us ≡ some u → hit u ≡ true
unfolding find_user
find_user-holds hit [] u = λ h. absurd (ground arith)
find_user-holds hit (x ∷ us) u = elim (Bool-cases (hit x)) [
  | inl here ↦ rw here (λ h. subst (λ v. hit v ≡ true) (some_inj h) here)
  | inr there ↦ rw there (find_user-holds hit us u)
]

pub get_user_by_id-holds :
    (id : ℕ) (db : Db) (u : User) → get_user_by_id id db ≡ some u → (u.id ≡ id) × (is_kept u ≡ true)
unfolding get_user_by_id
get_user_by_id-holds id db u h =
    let both = find_user-holds _ db.users u h in (ground (arith, both), ground (arith, both))

pub get_user_by_email-holds :
    (email : String) (db : Db) (u : User)
    → get_user_by_email email db ≡ some u
    → (str_eq u.email email ≡ true) × (is_kept u ≡ true)
unfolding get_user_by_email
get_user_by_email-holds email db u h =
    let both = find_user-holds _ db.users u h in (ground (arith, both), ground (arith, both))

-- Whoever a token finds holds a row of the table, and is not deleted.
pub record IsHeld (db : Db) (ss : List AuthSession) (hash : String) (s : AuthSession) (u : User)
    : Type 0 where
  pub stored : get_user_by_id s.user db ≡ some u
  pub hashed : str_eq s.token_hash hash ≡ true
  pub listed : (user : ℕ) → NoSession user ss → (s.user == user) ≡ false

authenticated-IsHeld :
    (hash : String) (db : Db) (x : AuthSession) (ss : List AuthSession) (v : AuthSession × User)
    → authenticated hash db x ≡ some v
    → IsHeld db (x ∷ ss) hash v.0 v.1
unfolding authenticated join_user
authenticated-IsHeld hash db x ss v =
    elim (Bool-cases (str_eq x.token_hash hash && ltb db.now x.expires_at)) [
      | inr refused ↦ rw refused (λ h. absurd (ground arith))
      | inl passed ↦ rw passed (go (get_user_by_id x.user db) refl (ground (arith, passed)))
    ]
  where
    go :
        (o : Option User)
        → get_user_by_id x.user db ≡ o
        → str_eq x.token_hash hash ≡ true
        → with_user x o ≡ some v
        → IsHeld db (x ∷ ss) hash v.0 v.1
    go none e t h = absurd (unfold with_user in ground arith)
    go (some u) e t h =
        subst (λ (r : AuthSession × User). IsHeld db (x ∷ ss) hash r.0 r.1)
          (some_inj (unfold with_user in h))
          (record { stored = e; hashed = t; listed = λ user n. n.0 })

pub first_authenticated-IsHeld :
    (hash : String) (db : Db) (ss : List AuthSession) (s : AuthSession) (u : User)
    → first_authenticated hash db ss ≡ some (s, u)
    → IsHeld db ss hash s u
unfolding first_authenticated
first_authenticated-IsHeld hash db [] s u = λ h. absurd (ground arith)
first_authenticated-IsHeld hash db (x ∷ ss) s u =
    go (authenticated hash db x) refl (first_authenticated-IsHeld hash db ss s u)
  where
    go :
        (o : Option (AuthSession × User))
        → authenticated hash db x ≡ o
        → (first_authenticated hash db ss ≡ some (s, u) → IsHeld db ss hash s u)
        → or_else o (first_authenticated hash db ss) ≡ some (s, u)
        → IsHeld db (x ∷ ss) hash s u
    go none e later h =
        let found = later (unfold or_else in h) in
        record {
          stored = found.stored;
          hashed = found.hashed;
          listed = λ user n. found.listed user n.1;
        }
    go (some v) e later h =
        subst (λ (r : AuthSession × User). IsHeld db (x ∷ ss) hash r.0 r.1)
          (some_inj (unfold or_else in h)) (authenticated-IsHeld hash db x ss v e)

-- A hash that no row has finds nothing.
pub first_authenticated-unknown :
    (hash : String) (db : Db) (ss : List AuthSession)
    → has_token hash ss ≡ false
    → first_authenticated hash db ss ≡ none
unfolding first_authenticated has_token authenticated or_else
first_authenticated-unknown hash db [] h = refl
first_authenticated-unknown hash db (s ∷ ss) h =
    ground (arith, h, first_authenticated-unknown hash db ss)

pub first_authenticated-append :
    (hash : String) (db : Db) (ss ts : List AuthSession)
    → first_authenticated hash db ss ≡ none
    → first_authenticated hash db (ss ++ ts) ≡ first_authenticated hash db ts
unfolding first_authenticated or_else
first_authenticated-append hash db [] ts h = refl
first_authenticated-append hash db (s ∷ ss) ts h =
    ground (arith, h, first_authenticated-append hash db ss ts)

-- A user that passes a test, and is changed so that he fails it, is found no more.
pub All-found :
    (P : User → Type 0) (hit : User → Bool) (us : List User) (u : User)
    → All P us
    → find_user hit us ≡ some u
    → P u
unfolding find_user
All-found P hit [] u a = λ h. absurd (ground arith)
All-found P hit (x ∷ us) u a = elim (Bool-cases (hit x)) [
  | inl here ↦ rw here (λ h. subst P (some_inj h) a.0)
  | inr there ↦ rw there (All-found P hit us u a.1)
]
