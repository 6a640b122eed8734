-- ===== src/Tests/Threads.antt =====
-- A session that quits, as a thread and as steps of the program.
use ftps_server.Base.{ℕ, ◌≡◌, refl, [], ◌∷◌, ◌++◌, pos, Result, ok, err}
use ftps_server.Text.{Bytes, codes, equal}
use ftps_server.Command.{parse, find_command, read_arguments}
use ftps_server.Stream.{extract, skip_spaces, read_word, word, after_word}
use ftps_server.Session.State.{Machine, is_state}
use ftps_server.Session.Login.{command_quit}
use ftps_server.Session.Dispatch.{
  c_string, dispatch, handle_buffer, session_loop, client_session_thread,
}
use ftps_server.Server.{Client, greeting, ended}
use ftps_server.System.{System, new_system, machine_of, with_machine, SystemReach}
use ftps_server.System.Thread.{client_session_thread-SystemReach}
use ftps_server.Tests.Samples.{
  Files, sample, sample_session, sample_files, sample_world, sample_net, sample_os,
}

abbrev a_client : Client
a_client = record { session = sample_session; point = greeting; buffer = [] }

-- A server with one session, which has not greeted its client yet.
abbrev greeting_system : System ℕ Files
greeting_system =
    let s = new_system sample_net (codes "127.0.0.1") (pos 50000) sample_world sample_files in
    record s { server = record s.server { client_sessions = a_client ∷ [] } }

abbrev quit_line : Bytes
quit_line = codes "QUIT\r\n" ++ 0 ∷ []

abbrev thread_result : Result (Machine ℕ Files)
thread_result =
    client_session_thread sample_net sample_os (quit_line ∷ [] ∷ []) []
      (machine_of greeting_system sample_session [])

abbrev left_by : Result (Machine ℕ Files) → Machine ℕ Files
left_by (ok m) = m
left_by (err e) = sample

thread_result-ok : thread_result ≡ ok (left_by thread_result)
unfolding client_session_thread session_loop handle_buffer c_string parse extract skip_spaces
    read_word word after_word find_command equal read_arguments dispatch command_quit is_state
thread_result-ok = refl

client_session_thread-SystemReach_example :
    (buffer : Bytes) × SystemReach sample_net sample_os greeting_system
      (with_machine greeting_system 0 ended buffer (left_by thread_result))
client_session_thread-SystemReach_example =
    client_session_thread-SystemReach sample_net sample_os greeting_system 0 a_client
      (quit_line ∷ []) [] refl refl refl thread_result-ok
