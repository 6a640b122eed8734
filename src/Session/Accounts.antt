-- ===== src/Session/Accounts.antt =====
-- PASS against the table of accounts.
use ftps_server.Base.{
  ◌≡◌, refl, ◌+◌, ◌⊎◌, inl, inr, ltb, if◌then◌else◌, arith, some, Bool-cases, ok,
}
use ftps_server.Text.{Bytes, codes}
use ftps_server.Command.{Command, get_argument}
use ftps_server.User.{User, Database, set_password, find}
use ftps_server.User.Laws.{get_lem}
use ftps_server.Session.State.{
  wait_login, wait_password, terminated, is_state, Session, Machine, reply, update,
  max_auth_attempts,
}
use ftps_server.Session.Login.{command_pass, try_password, answer_login, accept_login, refuse_login}

-- The session behind a login as `account`.
pub record LogsIn (s s' : Session) (account : User) : Type 0 where
  pub user : s'.user ≡ account
  pub folder : s'.folder ≡ account.folder
  pub state : s'.state ≡ s.state
  pub attempts : s'.auth_attempt ≡ s.auth_attempt

-- The session behind a failed login with `password`.
pub record Refuses (s s' : Session) (password : Bytes) : Type 0 where
  pub user : s'.user ≡ set_password s.user password
  pub folder : s'.folder ≡ s.folder
  pub attempts : s'.auth_attempt ≡ s.auth_attempt + 1
  pub state :
      s'.state ≡ (if ltb max_auth_attempts (s.auth_attempt + 1) then terminated else wait_login)

abbrev pub LoginOutcome : Database → Session → Bytes → Session → Type 0
LoginOutcome users s password s' =
    ((account : User) × (find s.user.login users ≡ some account)
      × (account.password ≡ password)
      × LogsIn s s' account)
    ⊎ (¬ (
          (account : User) × (find s.user.login users ≡ some account)
          × (account.password ≡ password))
        × Refuses s s' password)

module _ {E F : Type 0} where
  accept-LogsIn :
      (m : Machine E F) (password : Bytes) (account : User)
      → LogsIn m.session
          (accept_login (
            update
              (λ s. record s { user = account })
              (update (λ s. record s { user = set_password s.user password }) m))).session
          account
  unfolding accept_login
  accept-LogsIn m password account = record {
    user = refl;
    folder = refl;
    state = refl;
    attempts = refl;
  }

  refuse-Refuses :
      (m : Machine E F) (password : Bytes)
      → Refuses m.session
          (refuse_login (
            update
              (λ s. record s { user = set_password m.user password })
              (update (λ s. record s { user = set_password s.user password }) m))).session
          password
  unfolding refuse_login
  refuse-Refuses m password = ground arith

  try_password_lem :
      (password : Bytes) (m : Machine E F)
      → LoginOutcome m.users m.session password (try_password password m).session
  unfolding try_password
  try_password_lem password m =
      elim (get_lem m.users m.user.login password (set_password m.user password)) [
        | inl (account, found, same, e) ↦
            inl
              (account, found, same, rw e (unfold answer_login in accept-LogsIn m password account))
        | inr (other, e) ↦ inr (other, rw e (unfold answer_login in refuse-Refuses m password))
      ]

  -- PASS logs the user in as the account of its login if that has this password, with the account's
  -- folder; otherwise it counts a failure, goes back to the start, and ends the session behind the
  -- fourth failure. The state of the login at that time does not matter.
  pub command_pass_lem :
      (c : Command) (m : Machine E F) (password : Bytes)
      → get_argument c 0 ≡ ok password
      → (m' : Machine E F) × (command_pass c m ≡ ok m')
        × LoginOutcome m.users m.session password m'.session
  unfolding command_pass
  command_pass_lem c m password e = elim (Bool-cases (is_state m.state wait_password)) [
    | inl h ↦ (try_password password m, rw (e, h) refl, try_password_lem password m)
    | inr h ↦
        let m1 = reply (codes "530 PASS incorrect command order\r\n") m in
        (try_password password m1, rw (e, h) refl, try_password_lem password m1)
  ]
