-- ===== src/User/Refine.antt =====
-- The table of accounts against what it promises: a function from logins to accounts.
use mathlib.Core.Path.{fun_ext}
use ftps_server.Base.{
  ◌≡◌, refl, ap, sym, ◌∙◌, run_all, run_all-promised, map-same, List, Option, none, some,
  if◌then◌else◌, ℤ, pos, inl, inr, Option-cases,
}
use ftps_server.Text.{Bytes, equal}
use ftps_server.Status.{operation_success, operation_failure}
use ftps_server.User.{User, Database, find, get, add, erase}
use ftps_server.User.Laws.{HasKeysOnce, find-erase}

abbrev pub Accounts : Type 0
Accounts = Bytes → Option User

abbrev pub view : Database → Accounts
view db = λ k. find k db

abbrev pub change : Accounts → Bytes → Option User → Accounts
change accounts k account = λ j. if equal k j then account else accounts j

-- A call on the table; `login` is the lookup with a password.
pub data Request : Type 0 where
  create drop_account : User → Request
  login : Bytes → User → Request

-- The result of a call, and the user behind it.
abbrev pub Answer : Type 0
Answer = ℤ × User

abbrev pub perform : Request → Database → Answer × Database
perform (create u) db = let (r, db') = add db u in ((r, u), db')
perform (drop_account u) db = let (r, db') = erase db u in ((r, u), db')
perform (login password u) db = (get db u.login password u, db)

-- What is promised of a new account, and of a lookup, by what the function has at the login.
abbrev pub created : User → Accounts → Option User → Answer × Accounts
created u accounts none = ((pos 1, u), change accounts u.login (some u))
created u accounts (some v) = ((pos 0, u), accounts)

abbrev pub checked : Bytes → User → Option User → Answer
checked password u none = (operation_failure, u)
checked password u (some account) =
    if equal account.password password then (operation_success, account) else (operation_failure, u)

abbrev pub promised : Request → Accounts → Answer × Accounts
promised (create u) accounts = created u accounts (accounts u.login)
promised (drop_account u) accounts = ((pos 1, u), change accounts u.login none)
promised (login password u) accounts = (checked password u (accounts u.login), accounts)

-- Many calls: the answers, and what is left.
abbrev pub perform_all : List Request → Database → List Answer × Database
perform_all rs db = run_all perform rs db

abbrev pub promised_all : List Request → Accounts → List Answer × Accounts
promised_all rs accounts = run_all promised rs accounts

-- One call does what is promised.
perform-promised :
    (r : Request) (db : Database)
    → HasKeysOnce db
    → ((perform r db).0 ≡ (promised r (view db)).0)
      × (view (perform r db).1 ≡ (promised r (view db)).1)
      × HasKeysOnce (perform r db).1
unfolding find add get
perform-promised (create u) db h = elim (Option-cases (find u.login db)) [
  | inl e ↦ (rw (e, add) refl, rw (e, add) refl, rw (e, add) (e, h))
  | inr (v, e) ↦ (rw (e, add) refl, rw (e, add) refl, rw (e, add) h)
]
perform-promised (drop_account u) db h = (
  ap (λ r. (r, u)) (find-erase db u u.login h).0,
  fun_ext λ k. (find-erase db u k h).1,
  (find-erase db u u.login h).2,
)
perform-promised (login password u) db h = elim (Option-cases (find u.login db)) [
  | inl e ↦ (rw (e, get) refl, refl, h)
  | inr (v, e) ↦ (rw (e, get) refl, refl, h)
]

-- A table with one account for each login answers any sequence of calls as the function of its accounts
-- does, is the table of that function behind each call, and keeps one account for each login.
pub perform_all-promised :
    (rs : List Request) (db : Database)
    → HasKeysOnce db
    → ((perform_all rs db).0 ≡ (promised_all rs (view db)).0)
      × (view (perform_all rs db).1 ≡ (promised_all rs (view db)).1)
      × HasKeysOnce (perform_all rs db).1
perform_all-promised rs db h =
    let (answers, last, once) =
      run_all-promised perform promised (λ a. a) view HasKeysOnce perform-promised rs db h in
    (sym (map-same (perform_all rs db).0) ∙ answers, last, once)
