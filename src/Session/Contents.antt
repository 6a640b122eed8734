-- ===== src/Session/Contents.antt =====
-- What STOR, RNFR and RNTO do to the content of files.
use ftps_server.Base.{
  ◌≡◌, refl, ◌∙◌, true, false, List, [], ◌∷◌, ◌++◌, some, pos, ltb_ℤ, ok, append_assoc, append-nil,
}
use ftps_server.Text.{Bytes, codes}
use ftps_server.Status.{operation_success}
use ftps_server.Command.{Command, get_argument}
use ftps_server.FileSystem.Os.{Os, RefusesEmpty}
use ftps_server.FileSystem.Lawful.{IsLawful}
use ftps_server.FileSystem.Directory
use ftps_server.FileSystem.FilePath.{get_canonical_full_path}
use ftps_server.FileSystem.File.{or_nothing, move_path}
use ftps_server.Session.State.{Machine, reply, update}
use ftps_server.Session.Folder.{below_folder, command_rnfr, command_rnto}
use ftps_server.Session.Transfer.{is_binary, command_stor}
use ftps_server.Session.Receive.{AreChunks, write_all}
use ftps_server.Session.Files.{command_stor_lem, command_rnto_lem}
use ftps_server.Session.Names.{command_rnfr_lem}

-- The bytes of a list of chunks.
unfoldable pub flatten : List Bytes → Bytes
flatten [] = []
flatten (c ∷ cs) = c ++ flatten cs

module _ {F : Type 0} (os : Os F) (lawful : IsLawful os) where
  content-write_all :
      (p : Bytes) (chunks : List Bytes) (f : F) (old : Bytes)
      → lawful.content f p ≡ some old
      → lawful.content (write_all os true p chunks f) p ≡ some (old ++ flatten chunks)
  unfolding flatten
  content-write_all p [] f old h = h ∙ simp append-nil
  content-write_all p (c ∷ cs) f old h =
      content-write_all p cs (os.append f p c) (old ++ c) (lawful.content-append f p old c h)
      ∙ simp append_assoc

  pub canonical-file :
      (f : F) (p c r : Bytes)
      → os.realpath f p ≡ some r
      → Directory.exists os f r ≡ false
      → get_canonical_full_path os f p c ≡ (operation_success, r)
  unfolding get_canonical_full_path
  canonical-file f p c r e d = rw (e, get_canonical_full_path, d) refl

  move_path-content :
      (f f' : F) (r new : Bytes)
      → os.realpath f r ≡ some r
      → Directory.exists os f r ≡ false
      → os.rename f r new ≡ some f'
      → lawful.content (move_path os f r new).1 new ≡ lawful.content f r
  unfolding move_path
  move_path-content f f' r new e d n =
      rw (canonical-file f r [] r e d) (rw n (lawful.content-rename f r new n))

module _ {E F : Type 0} (os : Os F) (lawful : IsLawful os) where
  -- STOR with no size announced, into a file that opens: what the client sends up to the end of the
  -- data, all of it and in order, stands behind what the file below the current folder held; the data
  -- channel is closed, and the rest of the session stays.
  pub command_stor-content :
      (c : Command) (m : Machine E F) (name : Bytes) (chunks later : List Bytes) {f : F}
      → get_argument c 0 ≡ ok name
      → ltb_ℤ (pos 0) m.buffer_file_size ≡ false
      → m.incoming ≡ chunks ++ [] ∷ later
      → AreChunks chunks
      → os.open_append m.files (m.folder ++ name) (is_binary m.transfer_type) ≡ some f
      → let p = m.folder ++ name in
        (m' : Machine E F) × (command_stor os c m ≡ ok m')
        × (lawful.content m'.files p
            ≡ some (or_nothing (lawful.content m.files p) ++ flatten chunks))
        × (m'.incoming ≡ later)
        × (m'.data_channel.socket ≡ pos 0)
        × (m'.session ≡ record m.session { data_channel = m'.data_channel })
        × (m'.files ≡ write_all os true p chunks f)
  command_stor-content c m name chunks later {f} a size i h o =
      let p = m.folder ++ name in
      let (m', did, files, rest, closed_, session) =
        command_stor_lem os c m name chunks later a size i h in
      let written = rw o at files in
      let opened = lawful.content-open_append m.files p (is_binary m.transfer_type) o in
      (
        m',
        did,
        rw written
            (content-write_all os lawful p chunks f (or_nothing (lawful.content m.files p)) opened),
        rest,
        closed_,
        session,
        written,
      )

  -- RNFR of a regular file and RNTO to a path that is no directory, one after the other: where no call
  -- takes the empty path and the system can rename, the new path leads to what the old one led to,
  -- though the answer to RNFR is that there is no such file.
  pub command_rnto-content :
      (from to : Command) (m : Machine E F) (p q : Bytes) {r : Bytes} {f : F}
      → RefusesEmpty os
      → get_argument from 0 ≡ ok p
      → get_argument to 0 ≡ ok q
      → os.realpath m.files (below_folder os m p) ≡ some r
      → Directory.exists os m.files r ≡ false
      → Directory.exists os m.files (below_folder os m q) ≡ false
      → os.rename m.files r (below_folder os m q) ≡ some f
      → (m1 m2 : Machine E F) × (command_rnfr os from m ≡ ok m1)
        × (m1
            ≡ update
                (λ s. record s { argument = r })
                (reply
                  (codes
                    "500 RNRF command is failure (specified file or directory does not exists)\r\n")
                  m))
        × (command_rnto os to m1 ≡ ok m2)
        × (lawful.content m2.files (below_folder os m q)
            ≡ lawful.content m.files (below_folder os m p))
  command_rnto-content from to m p q {r} {f} empty a b e d d' n =
      let canonical = canonical-file os lawful m.files (below_folder os m p) [] r e d in
      let m1 =
        update (λ s. record s { argument = r })
          (reply
            (codes "500 RNRF command is failure (specified file or directory does not exists)\r\n")
            m) in
      let (m2, did, session, files) = command_rnto_lem os to m1 q empty b in
      let moved =
        move_path-content os lawful m.files f r (below_folder os m q)
          (lawful.realpath_twice m.files (below_folder os m p) e) d n in
      (
        m1,
        m2,
        command_rnfr_lem os from m p empty a ∙ rw (canonical, d) refl,
        refl,
        did,
        rw (rw d' at files) (moved ∙ lawful.content-realpath m.files (below_folder os m p) e),
      )
