-- ===== src/Tests/Stores.antt =====
-- What sessions do on a file system of named contents.
use ftps_server.Base.{ℕ, ◌≡◌, refl, List, [], ◌∷◌, some, ok}
use ftps_server.Text.{Bytes, codes, equal}
use ftps_server.Command.{Command, CommandType, rnfr, rnto, get_argument}
use ftps_server.FileSystem.Directory
use ftps_server.Session.State.{Machine, reply, update}
use ftps_server.Session.Folder.{command_rnfr, command_rnto}
use ftps_server.Session.Contents.{command_rnto-content}
use ftps_server.Tests.Store.{Store, held, found, store_os, store_os-IsLawful, store_os-RefusesEmpty}
use ftps_server.Tests.Samples.{sample, sample_session}
use ftps_server.FileSystem.FilePath.{is_path_rooted}

abbrev one_file : Store
one_file = (codes "b", codes "old") ∷ []

abbrev pub on_store : List Bytes → Machine ℕ Store
on_store chunks = record {
  session = sample_session;
  world = sample.world;
  files = one_file;
  users = sample.users;
  notifier = sample.notifier;
  data_port = sample.data_port;
  incoming = chunks;
}

abbrev pub with_name : CommandType → Bytes → Command
with_name t name = record { command = t; arguments = name ∷ [] }

command_rnto-content_example :
    let m = on_store [] in
    (m1 m2 : Machine ℕ Store) × (command_rnfr store_os (with_name rnfr (codes "b")) m ≡ ok m1)
    × (m1
        ≡ update
            (λ s. record s { argument = codes "b" })
            (reply
              (codes
                "500 RNRF command is failure (specified file or directory does not exists)\r\n")
              m))
    × (command_rnto store_os (with_name rnto (codes "c")) m1 ≡ ok m2)
    × (found m2.files (codes "c") ≡ some (codes "old"))
unfolding get_argument held equal is_path_rooted Directory.exists Directory.is_file_type
    Directory.mode_is
command_rnto-content_example =
    command_rnto-content store_os store_os-IsLawful (with_name rnfr (codes "b"))
      (with_name rnto (codes "c")) (on_store []) (codes "b") (codes "c") store_os-RefusesEmpty refl
      refl refl refl refl refl
