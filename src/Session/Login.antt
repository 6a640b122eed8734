-- ===== src/Session/Login.antt =====
-- The handlers of USER, PASS and QUIT.
use ftps_server.Base.{◌+◌, if◌then◌else◌, ltb, Result, ok, ◌>>=◌, ℤ}
use ftps_server.Text.{Bytes, codes}
use ftps_server.Status.{is_success}
use ftps_server.Command.{Command, get_argument}
use ftps_server.User.{User, set_login, set_password}
use ftps_server.User
use ftps_server.Session.State.{
  SessionState, wait_login, wait_password, terminated, is_state, Machine, max_auth_attempts, reply,
  update, with_state,
}

module _ {E F : Type 0} where
  -- The reply to a command in the wrong state. The handler goes on behind it.
  abbrev pub warn_unless : SessionState → Bytes → Machine E F → Machine E F
  warn_unless s message m = if is_state m.state s then m else reply message m

  unfoldable pub command_user : Command → Machine E F → Result (Machine E F)
  command_user c m = do
    login ← get_argument c 0
    let m1 = warn_unless wait_login (codes "500 USER incorrect command order\r\n") m
    let m2 = update (λ s. record s { user = set_login s.user login; state = wait_password }) m1
    ok (reply (codes "331 password is needed\r\n") m2)

  -- A failed login: back to the start, or the end behind too many.
  unfoldable pub refuse_login : Machine E F → Machine E F
  refuse_login m =
      let m1 = reply (codes "430 authentication failure\r\n") m in
      let m2 =
        update (λ s. record s { auth_attempt = s.auth_attempt + 1; state = wait_login }) m1 in
      if ltb max_auth_attempts m2.auth_attempt then with_state terminated m2 else m2

  unfoldable pub accept_login : Machine E F → Machine E F
  accept_login m =
      reply (codes "230 access is performed\r\n")
        (update (λ s. record s { folder = s.user.folder }) m)

  -- Behind the lookup in the table of accounts.
  unfoldable pub answer_login : ℤ × User → Machine E F → Machine E F
  answer_login (result, user') m =
      let m1 = update (λ s. record s { user = user' }) m in
      if is_success result then accept_login m1 else refuse_login m1

  -- The password is taken and the account is looked up.
  unfoldable pub try_password : Bytes → Machine E F → Machine E F
  try_password password m =
      let m1 = update (λ s. record s { user = set_password s.user password }) m in
      answer_login (User.get m1.users m1.user.login m1.user.password m1.user) m1

  unfoldable pub command_pass : Command → Machine E F → Result (Machine E F)
  command_pass c m = do
    password ← get_argument c 0
    let m1 = warn_unless wait_password (codes "530 PASS incorrect command order\r\n") m
    ok (try_password password m1)

  unfoldable pub command_quit : Command → Machine E F → Result (Machine E F)
  command_quit c m = ok (with_state terminated m)
