-- ===== src/Tests/Sockets.antt =====
-- PASV in a network whose first two ports are taken.
use ftps_server.Base.{arith, ℕ, ◌+◌, ◌<◌, ◌≤◌, ◌≡◌, ◌⊎◌, refl, [], Result, ok, err}
use ftps_server.Command.{Command, pasv}
use ftps_server.Net.Endpoints.{new_listener, listener_on, bind, accept}
use ftps_server.Net.Transport.{new_transport, from_socket, push, close}
use ftps_server.Net.Tls.{new_session, initialize_tls_global_state}
use ftps_server.Net.Sockets.{Uses}
use ftps_server.Session.State.{Machine}
use ftps_server.Session.Channel.{
  command_pasv, search_port, allocate_port, answer_passive, enter_passive, secure_data,
}
use ftps_server.Session.Leaks.{command_pasv-Uses}
use ftps_server.Tests.Samples.{Files, sample, sample_net}

abbrev pasv_command : Command
pasv_command = record { command = pasv; arguments = [] }

abbrev passive : Result (Machine ℕ Files)
passive = command_pasv sample_net pasv_command sample

abbrev behind : Result (Machine ℕ Files) → Machine ℕ Files
behind (ok m) = m
behind (err e) = sample

passive-ok : passive ≡ ok (behind passive)
unfolding command_pasv search_port allocate_port answer_passive enter_passive secure_data
    new_listener listener_on bind accept new_transport from_socket push close new_session
    initialize_tls_global_state
passive-ok = refl

command_pasv-Uses_example :
    (failed : ℕ) × ((behind passive).data_port ≡ 40150 + failed + 1)
    × (((failed ≡ 20) × Uses sample.world (behind passive).world 21 0)
        ⊎ ((failed < 20)
            × ((accepted : ℕ) × (accepted ≤ 1)
                × Uses sample.world (behind passive).world (failed + 2 + accepted) 1)))
command_pasv-Uses_example =
    command_pasv-Uses sample_net (λ e. ground arith) pasv_command sample (behind passive) passive-ok
