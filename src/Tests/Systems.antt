-- ===== src/Tests/Systems.antt =====
-- The whole program, the tables and the channels.
use ftps_server.Base.{
  ◌++◌, ℕ, ◌≡◌, ◌≢◌, refl, true, false, List, [], ◌∷◌, if◌then◌else◌, arith, pos, ok, ◌==◌, suc,
}
use ftps_server.Text.{Bytes, codes, equal}
use ftps_server.Command.{Command, stor, get_argument}
use ftps_server.User.{User, initial_database, find}
use ftps_server.User.Laws.{HasKeysOnce}
use ftps_server.User.Refine.{
  Request, create, drop_account, login, view, perform_all, promised_all, perform_all-promised,
}
use ftps_server.Net.World.{Net, NetCall, World, signalled}
use ftps_server.Net.Transport.{pull}
use ftps_server.Net.Endpoints.{listener_on, bind}
use ftps_server.Session.State.{Machine, Indeterminate, clear, is_state}
use ftps_server.Session.Transfer.{command_stor, receive}
use ftps_server.Session.Pull.{Pulls, receive_from, receive_from-receive}
use ftps_server.Server.{
  Client, reading, starts, start, server_thread, bind_address, announce, check, thread_step,
  finished, failed,
}
use ftps_server.System.{
  has_failed, System, new_system, machine_of, RunStep, thread_runs, SystemStep, runs, owner_acts,
  SystemReach, here, next,
}
use ftps_server.System.Safety.{IsSafe, new_system-IsSafe}
use ftps_server.System.Crash.{session-crashes}
use ftps_server.Main
use ftps_server.Main.{
  Main, new_main, main_start, main_register, MainReach, registers, printed, notify_signal,
}
use ftps_server.Main.Stored.{command_stor-signalled}
use ftps_server.Tests.Samples.{
  Files, sample, sample_session, sample_files, sample_world, sample_net, sample_os,
}

abbrev junk : Indeterminate
junk = record {
  buffer_file_size = pos 0;
  protection_buffer_size = pos 0;
  protection_level = clear;
  client_message = [];
}

-- A server that has accepted a client, and the client's greeting.
abbrev fresh_system : System ℕ Files
fresh_system = new_system sample_net (codes "127.0.0.1") (pos 50000) sample_world sample_files

abbrev started_system : System ℕ Files
started_system = record fresh_system { server = start fresh_system.server }

abbrev thread_ran : System ℕ Files → System ℕ Files
thread_ran s =
    let server = thread_step sample_net junk s.server in
    record s { server = server; crashed = has_failed server }

abbrev accepted_system : System ℕ Files
accepted_system = thread_ran (thread_ran (thread_ran (thread_ran started_system)))

ran : (s : System ℕ Files) → s.crashed ≡ false → SystemStep sample_net sample_os s (thread_ran s)
ran s n = runs (thread_runs junk n refl)

accepted : SystemReach sample_net sample_os fresh_system accepted_system
unfolding server_thread bind_address bind listener_on announce check
accepted =
    next
      (next
        (next
          (next (next here (owner_acts _ refl (starts refl refl) refl)) (ran started_system refl))
          (ran (thread_ran started_system) refl))
        (ran (thread_ran (thread_ran started_system)) refl))
      (ran (thread_ran (thread_ran (thread_ran started_system))) refl)

new_system-IsSafe_example : IsSafe accepted_system
new_system-IsSafe_example =
    new_system-IsSafe sample_net sample_os (codes "127.0.0.1") (pos 50000) sample_world sample_files
      accepted

abbrev a_client : Client
a_client = record { session = sample_session; point = reading; buffer = [] }

-- The same system with a session that reads commands.
abbrev reading_system : System ℕ Files
reading_system = record fresh_system {
  server = record fresh_system.server { client_sessions = a_client ∷ [] };
}

session-crashes_example :
    (t : System ℕ Files) × RunStep sample_net sample_os reading_system t
    × (t.crashed ≡ true)
    × ((u : System ℕ Files) → SystemReach sample_net sample_os t u → u ≡ t)
unfolding is_state
session-crashes_example =
    session-crashes sample_net sample_os reading_system 0 a_client refl refl refl refl

abbrev sample_main : Main ℕ Files
sample_main = new_main sample_net sample_world sample_files

abbrev waiting_main : Main ℕ Files
waiting_main = main_register 7 (main_start sample_main)

abbrev store : Command
store = record { command = stor; arguments = codes "b" ∷ [] }

command_stor-signalled_example :
    (m : Machine ℕ Files) × (command_stor sample_os store
        (machine_of waiting_main.system sample_session (codes "xy" ∷ [] ∷ []))
      ≡ ok m)
    × ((calls : List NetCall) × (m.world.calls ≡ signalled 7 (codes "b") ∷ calls)
        × (printed 7 m.world.calls ≡ printed 7 calls ++ notify_signal (codes "b")))
    × (waiting_main.system.server.thread ≢ finished)
    × (waiting_main.system.server.thread ≢ failed)
unfolding get_argument
command_stor-signalled_example =
    command_stor-signalled sample_net sample_os 7 sample_world sample_files sample_session
      (codes "xy" ∷ []) [] store (codes "b")
      (Main.next (Main.next Main.here (Main.starts refl refl refl)) (registers refl refl refl)) refl
      refl refl

abbrev guest : User
guest = record { login = codes "guest"; password = codes "g"; folder = codes "/home/" }

abbrev requests : List Request
requests = create guest ∷ login (codes "g") guest ∷ drop_account guest ∷ []

perform_all-promised_example :
    ((perform_all requests initial_database).0 ≡ (promised_all requests (view initial_database)).0)
    × (view (perform_all requests initial_database).1
        ≡ (promised_all requests (view initial_database)).1)
    × HasKeysOnce (perform_all requests initial_database).1
perform_all-promised_example =
    perform_all-promised requests initial_database (unfold find equal in (refl, (refl, tt)))

-- Two messages and the end of the data.
abbrev ending_net : Net ℕ
ending_net = record sample_net { recv = λ e fd length. (if e == 12 then [] else codes "xy", suc e) }

abbrev two_messages : List Bytes
two_messages = codes "xy" ∷ codes "xy" ∷ [] ∷ []

abbrev world_13 : World ℕ
world_13 = record sample_world { env = 13 }

receive_from-receive_example :
    let (f', later) = receive sample_os (pos 4) true (codes "f") two_messages sample_files in
    (w : World ℕ) × (receive_from ending_net sample_os sample.data_channel true
        (codes "f")
        3
        (pos 4)
        sample_world
        sample_files
      ≡ ok (f', w))
    × Pulls ending_net sample.data_channel w later world_13
unfolding pull
receive_from-receive_example =
    receive_from-receive ending_net sample_os sample.data_channel true (codes "f") 3 (pos 4)
      two_messages sample_world world_13 sample_files (omega arith) tt (refl, (refl, (refl, refl)))
