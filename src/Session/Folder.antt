-- ===== src/Session/Folder.antt =====
-- The handlers on names in the file system: CWD, DELE, RNFR and RNTO.
use ftps_server.Base.{
  [], ◌++◌, not, ◌&&◌, ◌||◌, if◌then◌else◌, ltb, drop, length, Result, ok, err, out_of_range, ◌>>=◌,
}
use ftps_server.Text.{Bytes, codes}
use ftps_server.Status.{is_success}
use ftps_server.Command.{Command, get_argument}
use ftps_server.FileSystem.Os.{Os}
use ftps_server.FileSystem.FilePath.{is_path_rooted, is_path_homed, get_canonical_full_path}
use ftps_server.FileSystem.Directory
use ftps_server.FileSystem.File
use ftps_server.Session.State.{Machine, reply, update}

-- `text.substr(2)`.
unfoldable pub substr_two : Bytes → Result Bytes
substr_two t = if ltb (length t) 2 then err out_of_range else ok (drop 2 t)

module _ {E F : Type 0} (os : Os F) where
  -- The path that CWD asks for, before it is resolved.
  unfoldable pub requested_folder : Machine E F → Bytes → Result Bytes
  requested_folder m folder =
      if is_path_rooted folder
      then ok folder
      else (if is_path_homed folder
          then (substr_two folder >>= λ rest. ok (m.user.folder ++ rest))
          else ok (m.folder ++ folder))

  unfoldable pub command_cwd : Command → Machine E F → Result (Machine E F)
  command_cwd c m = do
    folder ← get_argument c 0
    path_folder ← requested_folder m folder
    let canonical = (get_canonical_full_path os m.files path_folder []).1
    ok (
        if not (Directory.exists os m.files canonical)
        then reply (codes "553 CWD folder is not found\r\n") m
        else reply (codes "250 CWD command is successful\r\n")
            (update (λ s. record s { folder = canonical }) m))

  unfoldable pub file_to_erase : Machine E F → Bytes → Bytes
  file_to_erase m p =
      if not (is_path_rooted p) then m.folder ++ p else (get_canonical_full_path os m.files p []).1

  unfoldable pub command_dele : Command → Machine E F → Result (Machine E F)
  command_dele c m = do
    p ← get_argument c 0
    let (result, files') = File.erase os m.files (file_to_erase m p)
    ok (
        reply
          (if is_success result
            then codes "250 DELE command is successful\r\n"
            else codes "250 DELE command is failure\r\n")
          (record m { files = files' }))

  -- A path that is not rooted is one below the current folder.
  abbrev pub below_folder : Machine E F → Bytes → Bytes
  below_folder m p = if not (is_path_rooted p) then m.folder ++ p else p

  unfoldable pub command_rnfr : Command → Machine E F → Result (Machine E F)
  command_rnfr c m = do
    p ← get_argument c 0
    let canonical = (get_canonical_full_path os m.files (below_folder m p) []).1
    let missing =
        not (File.exists os m.files canonical) && not (Directory.exists os m.files canonical)
    let m1 =
        reply
          (if missing
            then codes
                "500 RNRF command is failure (specified file or directory does not exists)\r\n"
            else codes "350 Requested file action pending further information\r\n")
          m
    ok (update (λ s. record s { argument = canonical }) m1)

  unfoldable pub command_rnto : Command → Machine E F → Result (Machine E F)
  command_rnto c m = do
    p ← get_argument c 0
    let new_path = below_folder m p
    let (result, files') = File.move_path os m.files m.argument new_path
    ok (
        if File.exists os m.files new_path || Directory.exists os m.files new_path
        then reply
            (codes "500 RNTO command is failure (specified file or directory already exists)\r\n") m
        else (if is_success result
            then reply (codes "250 RNTO command is successful\r\n") (record m { files = files' })
            else reply (codes "500 RNTO command is failure (system error occurs)\r\n")
                (record m { files = files' })))
