-- ===== src/User/Laws.antt =====
-- Lookup after an update of the table of accounts.
use ftps_server.Base.{
  ◌≡◌, ◌&&◌, pos, refl, ◌⊎◌, inl, inr, [], ◌∷◌, none, some, arith, if◌then◌else◌, Option-cases,
  Bool-cases,
}
use ftps_server.Text.{Bytes, equal, equal_iff}
use ftps_server.Status.{is_true, operation_success, operation_failure}
use ftps_server.User.{User, Database, find, remove_key, get, add, erase}

-- No login has two accounts.
abbrev pub HasKeysOnce : Database → Type 0
HasKeysOnce [] = Unit
HasKeysOnce ((k, u) ∷ db) = (find k db ≡ none) × HasKeysOnce db

find-remove_key :
    (k j : Bytes) (db : Database)
    → HasKeysOnce db
    → find j (remove_key k db) ≡ (if equal k j then none else find j db)
unfolding find remove_key
find-remove_key k j [] h = ground arith
find-remove_key k j ((i, u) ∷ db) h =
    ground (arith, equal_iff k j, equal_iff i k, equal_iff i j, find-remove_key k j db h.1)

remove_key-HasKeysOnce :
    (k : Bytes) (db : Database) → HasKeysOnce db → HasKeysOnce (remove_key k db)
unfolding remove_key
remove_key-HasKeysOnce k [] h = tt
remove_key-HasKeysOnce k ((i, u) ∷ db) h =
    ground (arith, find-remove_key k i db h.1, remove_key-HasKeysOnce k db h.1)

-- Adding an account gives a new login to it and changes no other login; the result tells which.
pub find-add :
    (db : Database) (u : User) (k : Bytes)
    → find k (add db u).1 ≡ (if is_true (add db u).0 && equal u.login k then some u else find k db)
unfolding add find
find-add db u k = elim (Option-cases (find u.login db)) [
  | inl e ↦ rw (e, add) refl
  | inr (v, e) ↦ rw (e, add) refl
]

-- In a table with one account for each login, erasing takes the account of this login away and no
-- other, and keeps it so; the result is always 1, whether there was an account or not.
pub find-erase :
    (db : Database) (u : User) (k : Bytes)
    → HasKeysOnce db
    → ((erase db u).0 ≡ pos 1)
      × (find k (erase db u).1 ≡ (if equal u.login k then none else find k db))
      × HasKeysOnce (erase db u).1
unfolding erase
find-erase db u k h = elim (Option-cases (find u.login db)) [
  | inl e ↦
      (rw (e, erase) refl, rw (e, erase) (ground (arith, equal_iff u.login k)), rw (e, erase) h)
  | inr (v, e) ↦ (
    rw (e, erase) refl,
    rw (e, erase) (find-remove_key u.login k db h),
    rw (e, erase) (remove_key-HasKeysOnce u.login db h),
  )
]

-- A login succeeds exactly for the password of the account of the user's login; then the user is
-- that account, and otherwise the user stays.
pub get_lem :
    (db : Database) (login password : Bytes) (u : User)
    → ((c : User) × (find u.login db ≡ some c)
        × (c.password ≡ password)
        × (get db login password u ≡ (operation_success, c)))
      ⊎ (¬ ((c : User) × (find u.login db ≡ some c) × (c.password ≡ password))
          × (get db login password u ≡ (operation_failure, u)))
unfolding get
get_lem db login password u = elim (Option-cases (find u.login db)) [
  | inl e ↦ inr (λ (c, f, _). cc, rw (e, get) refl)
  | inr (c, e) ↦ elim (Bool-cases (equal c.password password)) [
    | inl same ↦ inl (c, e, (equal_iff _ _).0 same, rw (e, get, same) refl)
    | inr other ↦
        inr (λ (d, f, g). ground (arith, equal_iff c.password password), rw (e, get, other) refl)
  ]
]
