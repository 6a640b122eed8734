-- ===== src/Session/Files.antt =====
-- STOR, LIST and RNTO as wholes.
use ftps_server.Base.{
  ◌≡◌, refl, inl, inr, false, List, [], ◌∷◌, ◌++◌, pos, if◌then◌else◌, ltb_ℤ, ok, Bool-cases,
}
use ftps_server.Text.{Bytes, codes}
use ftps_server.Status.{is_success}
use ftps_server.Command.{Command, get_argument}
use ftps_server.FileSystem.Os.{Os, RefusesEmpty}
use ftps_server.FileSystem.Directory
use ftps_server.FileSystem.File.{move_path}
use ftps_server.FileSystem.Exists.{file_exists-false}
use ftps_server.Net.Transport.{close}
use ftps_server.Session.State.{Machine, reply}
use ftps_server.Session.Folder.{below_folder, command_rnto}
use ftps_server.Session.Transfer.{
  opened_file, is_binary, receive, close_data, notify_put, command_stor,
}
use ftps_server.Session.Receive.{AreChunks, write_all, receive_all_lem}

module _ {E F : Type 0} (os : Os F) where
  -- STOR with no size announced appends the chunks up to the end of the data, in order, to the file
  -- below the current folder, closes the data channel and keeps the rest of the session.
  pub command_stor_lem :
      (c : Command) (m : Machine E F) (name : Bytes) (chunks later : List Bytes)
      → get_argument c 0 ≡ ok name
      → ltb_ℤ (pos 0) m.buffer_file_size ≡ false
      → m.incoming ≡ chunks ++ [] ∷ later
      → AreChunks chunks
      → let p = m.folder ++ name in
        let (is_open, f) =
          opened_file m.files (os.open_append m.files p (is_binary m.transfer_type)) in
        (m' : Machine E F) × (command_stor os c m ≡ ok m')
        × (m'.files ≡ write_all os is_open p chunks f)
        × (m'.incoming ≡ later)
        × (m'.data_channel.socket ≡ pos 0)
        × (m'.session ≡ record m.session { data_channel = m'.data_channel })
  unfolding command_stor close_data
  command_stor_lem c m name chunks later a size i h =
      let p = m.folder ++ name in
      let (is_open, f) =
        opened_file m.files (os.open_append m.files p (is_binary m.transfer_type)) in
      let received : receive os m.buffer_file_size is_open p m.incoming f
          ≡ (write_all os is_open p chunks f, later) =
        unfold receive in rw (size, i) (receive_all_lem os is_open p chunks later f h) in
      let m1 = reply (codes "150 STOR file status is OK\r\n") m in
      let m2 =
        close_data (record m1 { files = write_all os is_open p chunks f; incoming = later }) in
      (
        notify_put p (reply (codes "226 ASCII Transfer complete\r\n") m2),
        rw (a, received) refl,
        refl,
        refl,
        unfold close in refl,
        refl,
      )

  -- Where no call takes the empty path: RNTO to a path that is no directory moves what RNFR
  -- remembered, also over a regular file; to a directory it changes no file. The session stays as
  -- it is.
  pub command_rnto_lem :
      (c : Command) (m : Machine E F) (p : Bytes)
      → RefusesEmpty os
      → get_argument c 0 ≡ ok p
      → let new_path = below_folder os m p in
        (m' : Machine E F) × (command_rnto os c m ≡ ok m')
        × (m'.session ≡ m.session)
        × (m'.files ≡ (
            if Directory.exists os m.files new_path
            then m.files
            else (move_path os m.files m.argument new_path).1))
  unfolding command_rnto
  command_rnto_lem c m p empty a =
      let new_path = below_folder os m p in
      let no_file = file_exists-false os empty m.files new_path in
      let moved = record m { files = (move_path os m.files m.argument new_path).1 } in
      elim (Bool-cases (Directory.exists os m.files new_path)) [
        | inl d ↦ (
          reply
              (codes "500 RNTO command is failure (specified file or directory already exists)\r\n")
              m,
          rw (a, no_file, d) refl,
          refl,
          rw d refl,
        )
        | inr d ↦ elim (Bool-cases (is_success (move_path os m.files m.argument new_path).0)) [
          | inl r ↦ (
            reply (codes "250 RNTO command is successful\r\n") moved,
            rw (a, no_file, d, r) refl,
            refl,
            rw d refl,
          )
          | inr r ↦ (
            reply (codes "500 RNTO command is failure (system error occurs)\r\n") moved,
            rw (a, no_file, d, r) refl,
            refl,
            rw d refl,
          )
        ]
      ]
