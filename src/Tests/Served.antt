-- ===== src/Tests/Served.antt =====
-- Lines with old bytes behind them, a size that chunks do not make up, a client with no login that
-- takes a file away or replaces it.
use ftps_server.Base.{
  ok, suc, ◌==◌, if◌then◌else◌, ℕ, ◌≡◌, refl, true, [], ◌∷◌, ◌++◌, inr, none, get_elem?, some, pos,
  arith,
}
use ftps_server.Text.{Bytes, codes, equal}
use ftps_server.Command.{dele, find_command}
use ftps_server.Command.Split.{words_onto}
use ftps_server.FileSystem.Directory
use ftps_server.FileSystem.FilePath.{is_path_rooted}
use ftps_server.Net.World.{Net, World}
use ftps_server.Net.Transport.{pull}
use ftps_server.Session.Pull.{receive_from}
use ftps_server.Session.State.{Machine, is_state}
use ftps_server.Session.Dispatch.{c_string, overwrite, handle_buffer, dispatch}
use ftps_server.Session.Contents.{flatten}
use ftps_server.Session.Transfer.{receive_sized}
use ftps_server.Session.Stale.{handle_buffer-words}
use ftps_server.Session.Sized.{Ends, receive_sized-Ends}
use ftps_server.Server.{Client, reading}
use ftps_server.System.{System, new_system, with_machine, RunStep, RunReach}
use ftps_server.System.Erased.{client-erases}
use ftps_server.System.Replaced.{client-replaces}
use ftps_server.Tests.Samples.{
  sample, sample_net, sample_os, sample_files, sample_session, sample_world,
}
use ftps_server.Tests.Store.{Store, store_os, store_os-IsLawful, found, held, without}

-- DELE with no argument behind USER admin.
abbrev old_buffer : Bytes
old_buffer = codes "USER admin\r\n" ++ 0 ∷ []

handle_buffer-words_example :
    handle_buffer sample_net sample_os (overwrite old_buffer (codes "DELE\r\n")) sample
    ≡ dispatch sample_net sample_os dele
        (record { command = dele; arguments = codes "dmin" ∷ [] })
        sample
unfolding find_command equal words_onto c_string
handle_buffer-words_example =
    handle_buffer-words sample_net sample_os (codes "DELE\r\n") old_buffer (codes "dmin\r\n") sample
      (omega arith) (ground arith) refl refl (λ e. cc)

-- Three bytes and two are past an announced size of four.
receive_sized-Ends_example :
    Ends sample_os true
      (codes "f")
      (codes "more" ∷ [])
      4
      (codes "abc" ∷ codes "de" ∷ [])
      sample_files
      (receive_sized sample_os
        (pos 4)
        true
        (codes "f")
        (codes "abc" ∷ codes "de" ∷ [] ∷ codes "more" ∷ [])
        sample_files)
receive_sized-Ends_example =
    receive_sized-Ends sample_os true (codes "f") (codes "more" ∷ []) 4
      (codes "abc" ∷ codes "de" ∷ []) sample_files (ground arith)

abbrev one_file : Store
one_file = (codes "/b", codes "old") ∷ []

abbrev zeros : Bytes
zeros = 0 ∷ 0 ∷ 0 ∷ 0 ∷ 0 ∷ 0 ∷ 0 ∷ 0 ∷ 0 ∷ 0 ∷ 0 ∷ 0 ∷ []

abbrev stranger : Client
stranger = record { session = sample_session; point = reading; buffer = zeros }

abbrev visited : System ℕ Store
visited =
    let s = new_system sample_net (codes "127.0.0.1") (pos 50000) sample_world one_file in
    record s { server = record s.server { client_sessions = stranger ∷ []; world = sample_world } }

client-erases_example :
    (m : Machine ℕ Store) × RunStep sample_net store_os visited
      (with_machine visited 0 reading (overwrite zeros (codes "DELE /b\r\n")) m)
    × (found m.files (codes "/b") ≡ none)
    × (m.session ≡ sample_session)
unfolding held equal without Directory.exists Directory.is_file_type Directory.mode_is is_state
    is_path_rooted
client-erases_example =
    client-erases sample_net store_os store_os-IsLawful visited 0 10 stranger (codes "/b")
      (codes "/b") refl refl refl refl (tt, omega arith) (omega arith) (ground arith) refl refl refl
      refl

-- The data channel gives three bytes twice, and then the end.
abbrev ending_net : Net ℕ
ending_net = record sample_net {
  recv = λ e fd length. (if e == 12 then [] else codes "new", suc e);
}

abbrev ended_world : World ℕ
ended_world = record sample_world { env = 13 }

client-replaces_example :
    let messages = codes "new" ∷ codes "new" ∷ [] ∷ [] in
    (t : System ℕ Store) × (d : Client) × RunReach ending_net store_os visited t
    × (get_elem? t.server.client_sessions 0 ≡ some d)
    × (found t.files (codes "/b") ≡ some (codes "newnew"))
    × (d.point ≡ reading)
    × (d.session ≡ record sample_session { data_channel = d.data_channel })
    × ((w : World ℕ) × (receive_from ending_net store_os sample_session.data_channel true
            (codes "/b")
            3
            (pos 0)
            visited.server.world
            ((codes "/b", []) ∷ [])
          ≡ ok (t.files, w)))
unfolding held equal without flatten Directory.exists Directory.is_file_type Directory.mode_is
    is_state pull
client-replaces_example =
    client-replaces ending_net store_os store_os-IsLawful visited 0 10 stranger (codes "/b")
      (codes "/b") (codes "new" ∷ codes "new" ∷ []) ended_world refl refl refl refl
      (tt, omega arith) (omega arith) (ground arith) (inr refl) refl refl refl refl (ground arith)
      (refl, (refl, (refl, refl))) refl
