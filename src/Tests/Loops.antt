-- ===== src/Tests/Loops.antt =====
-- A session over several messages.

use ftps_server.Base.{◌≡◌, Result, ok, err, ℕ, refl, List, [], ◌∷◌, ◌++◌, arith}
use ftps_server.Text.{Bytes, codes, equal}
use ftps_server.Stream.{extract, skip_spaces, word, after_word, read_word}
use ftps_server.Command.{find_command, read_arguments, parse, get_argument}
use ftps_server.User
use ftps_server.User.{check_password, find}
use ftps_server.Session.State.{Machine, is_state}
use ftps_server.Session.Login.{
  command_user, command_pass, command_quit, try_password, answer_login, refuse_login,
}
use ftps_server.Session.Dispatch.{c_string, dispatch, handle_buffer, session_loop}
use ftps_server.Session.Attempts.{IsWithin, session_loop-IsWithin}
use ftps_server.Tests.Samples.{Files, sample, sample_net, sample_os}

abbrev line : Bytes → Bytes
line text = text ++ 0 ∷ []

abbrev wrong_login : List Bytes
wrong_login = line (codes "USER admin") ∷ line (codes "PASS x") ∷ line (codes "QUIT") ∷ []

-- A login with a wrong password, and QUIT.
abbrev run : Result (Machine ℕ Files)
run = session_loop sample_net sample_os wrong_login [] sample

abbrev machine_or : Machine ℕ Files → Result (Machine ℕ Files) → Machine ℕ Files
machine_or m (ok m') = m'
machine_or m (err e) = m

run-ok : run ≡ ok (machine_or sample run)
unfolding session_loop handle_buffer c_string parse extract skip_spaces word after_word read_word
    find_command equal read_arguments dispatch command_user command_pass command_quit try_password
    answer_login refuse_login get_argument find is_state User.get
run-ok = refl

run-attempts : (machine_or sample run).auth_attempt ≡ 1
unfolding session_loop handle_buffer c_string parse extract skip_spaces word after_word read_word
    find_command equal read_arguments dispatch command_user command_pass command_quit try_password
    answer_login refuse_login get_argument find is_state User.get
run-attempts = refl

sample-IsWithin : IsWithin sample
sample-IsWithin = ground arith

session_loop-IsWithin_example : IsWithin (machine_or sample run)
session_loop-IsWithin_example =
    session_loop-IsWithin sample_net sample_os wrong_login [] sample sample-IsWithin run-ok
