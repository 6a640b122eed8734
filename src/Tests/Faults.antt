-- ===== src/Tests/Faults.antt =====
-- What commands throw and answer, and what sessions lose.
use ftps_server.Base.{
  ℕ, ◌+◌, ◌≡◌, ◌≤◌, ◌↔◌, refl, [], ◌∷◌, none, some, arith, ok, err, out_of_range,
}
use ftps_server.Text.{codes, equal}
use ftps_server.Stream.{extract, skip_spaces, read_word, word, after_word}
use ftps_server.Command.{Command, user, cwd, parse, find_command, read_arguments, get_argument}
use ftps_server.Net.Pushed.{pushed}
use ftps_server.Session.State.{Machine, wait_password, is_state, reply, update}
use ftps_server.Session.Login.{command_user}
use ftps_server.User.{set_login}
use ftps_server.Session.Dispatch.{dispatch}
use ftps_server.Session.Answers.{dispatch-answers}
use ftps_server.Session.Throws.{dispatch-err}
use ftps_server.System.Race.{Counter, CounterReach, increments-lost}
use ftps_server.Tests.Samples.{Files, sample, sample_net, sample_os}

abbrev cwd_home : Command
cwd_home = record { command = cwd; arguments = codes "~" ∷ [] }

cwd_home-parse : parse (codes "CWD ~\r\n") ≡ ok cwd_home
unfolding parse extract skip_spaces read_word word after_word find_command read_arguments equal
cwd_home-parse = refl

dispatch-err_example :
    (dispatch sample_net sample_os cwd cwd_home sample ≡ err out_of_range)
    ↔ ((get_argument cwd_home 0 ≡ ok (codes "~")) × (out_of_range ≡ out_of_range))
dispatch-err_example =
    dispatch-err sample_net sample_os (codes "CWD ~\r\n") cwd_home sample out_of_range
      cwd_home-parse refl

abbrev user_admin : Command
user_admin = record { command = user; arguments = codes "admin" ∷ [] }

abbrev named : Machine ℕ Files
named = reply (codes "331 password is needed\r\n") (
    update (λ s. record s { user = set_login s.user (codes "admin"); state = wait_password })
      sample)

dispatch-answers_example :
    (pushed sample.world + 1 ≤ pushed named.world) × (pushed named.world ≤ pushed sample.world + 1)
unfolding dispatch command_user get_argument is_state
dispatch-answers_example = dispatch-answers sample_net sample_os user user_admin sample refl

abbrev quiet : Counter
quiet = record { data_port = 40150; loaded = λ i. none; port = λ i. none }

increments-lost_example :
    (u t : Counter) × CounterReach quiet u
    × (u.port 1 ≡ some 40152)
    × (u.data_port ≡ 40153)
    × CounterReach u t
    × (t.port 0 ≡ some 40150)
    × (t.data_port ≡ 40151)
increments-lost_example = increments-lost quiet 0 1 2 (omega arith) refl refl
