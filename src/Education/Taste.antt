-- ===== src/Education/Taste.antt =====
-- internal/backend/educator.go: the free taste, and what is left of it.
use sabermatic_dev.Prelude.{
  some_inj, ℕ, ◌+◌, ◌≡◌, sym, List, [], ◌∷◌, map, some, if◌then◌else◌, arith, select,
}
use sabermatic_dev.Store.Rows.{Db, User}
use sabermatic_dev.Store.Grants.Balance
use sabermatic_dev.Store.Educators.{has_taste_left, first_or_none, increment_free_educator_used}

abbrev tasted : ℕ → ℕ → User → User
tasted user limit v =
    if has_taste_left user limit v
    then record v { free_full_educators_used = v.free_full_educators_used + 1 }
    else v

increment-tasted :
    (user limit : ℕ) (db d : Db)
    → increment_free_educator_used user limit db ≡ some d
    → d ≡ record db { users = map (tasted user limit) db.users }
unfolding increment_free_educator_used
increment-tasted user limit db d = go (select (has_taste_left user limit) db.users)
  where
    go :
        (us : List User)
        → first_or_none us (record db { users = map (tasted user limit) db.users }) ≡ some d
        → d ≡ record db { users = map (tasted user limit) db.users }
    go [] h = absurd (unfold first_or_none in ground arith)
    go (u ∷ us) h = sym (some_inj (unfold first_or_none in h))

abbrev after_taste : ℕ → ℕ → Db → Db
after_taste user limit db = record db { users = map (tasted user limit) db.users }
