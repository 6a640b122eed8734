-- ===== src/Session/Replace.antt =====
-- DELE and STOR of the same name.
use ftps_server.Base.{
  ◌≡◌, refl, ◌⊎◌, inl, inr, Bool-cases, true, false, List, [], ◌∷◌, ◌++◌, some, pos, ltb_ℤ, ok,
}
use ftps_server.Text.{Bytes, codes}
use ftps_server.Command.{Command, get_argument}
use ftps_server.FileSystem.Os.{Os}
use ftps_server.FileSystem.Lawful.{IsLawful}
use ftps_server.FileSystem.Directory
use ftps_server.FileSystem.FilePath.{is_path_rooted}
use ftps_server.FileSystem.File.{erase}
use ftps_server.Session.State.{Machine, reply}
use ftps_server.Session.Folder.{command_dele, file_to_erase}
use ftps_server.Session.Transfer.{is_binary, command_stor}
use ftps_server.Session.Receive.{AreChunks, write_all}
use ftps_server.Session.Contents.{flatten, canonical-file, command_stor-content}

module _ {E F : Type 0} where
  -- The machine behind a successful DELE.
  abbrev pub deleted : F → Machine E F → Machine E F
  deleted f m = reply (codes "250 DELE command is successful\r\n") (record m { files = f })

  -- A name that STOR and DELE take to be the same path: it is not rooted, or no folder is set.
  abbrev pub IsSamePath : Machine E F → Bytes → Type 0
  IsSamePath m name = (is_path_rooted name ≡ false) ⊎ (m.folder ≡ [])

module _ {E F : Type 0} (os : Os F) (lawful : IsLawful os) where
  pub command_dele-rooted :
      (c : Command) (m : Machine E F) (p r : Bytes) (f : F)
      → get_argument c 0 ≡ ok p
      → is_path_rooted p ≡ true
      → os.realpath m.files p ≡ some r
      → Directory.exists os m.files r ≡ false
      → os.remove m.files r ≡ some f
      → command_dele os c m ≡ ok (deleted f m)
  unfolding command_dele erase file_to_erase
  command_dele-rooted c m p r f a rooted e d n =
      let first = canonical-file os lawful m.files p [] r e d in
      let again = canonical-file os lawful m.files r [] r (lawful.realpath_twice m.files p e) d in
      rw (a, rooted, first, again, n) refl

  command_dele-plain :
      (c : Command) (m : Machine E F) (name r : Bytes) (f : F)
      → get_argument c 0 ≡ ok name
      → is_path_rooted name ≡ false
      → os.realpath m.files (m.folder ++ name) ≡ some r
      → Directory.exists os m.files r ≡ false
      → os.remove m.files r ≡ some f
      → command_dele os c m ≡ ok (deleted f m)
  unfolding command_dele erase file_to_erase
  command_dele-plain c m name r f a plain e d n =
      let canonical = canonical-file os lawful m.files (m.folder ++ name) [] r e d in
      rw (a, plain, canonical, n) refl

  command_dele-deleted :
      (c : Command) (m : Machine E F) (name r : Bytes) (f : F)
      → get_argument c 0 ≡ ok name
      → IsSamePath m name
      → os.realpath m.files (m.folder ++ name) ≡ some r
      → Directory.exists os m.files r ≡ false
      → os.remove m.files r ≡ some f
      → command_dele os c m ≡ ok (deleted f m)
  command_dele-deleted c m name r f a (inl plain) e d n =
      command_dele-plain c m name r f a plain e d n
  command_dele-deleted c m name r f a (inr bare) e d n = elim (Bool-cases (is_path_rooted name)) [
    | inl rooted ↦ command_dele-rooted c m name r f a rooted (rw bare at e) d n
    | inr plain ↦ command_dele-plain c m name r f a plain e d n
  ]

  -- DELE of a regular file and STOR of the same name, for the same path, one after the other:
  -- where the system removes the file and opens one again, no size is announced and what is sent
  -- comes in pieces that are not empty, DELE answers that it is done, and the file holds exactly
  -- what the client sends behind STOR.
  pub command_dele-stor :
      (del put : Command) (m : Machine E F) (name : Bytes) (chunks later : List Bytes) {r : Bytes}
      {f f' : F}
      → get_argument del 0 ≡ ok name
      → get_argument put 0 ≡ ok name
      → IsSamePath m name
      → os.realpath m.files (m.folder ++ name) ≡ some r
      → Directory.exists os m.files r ≡ false
      → os.remove m.files r ≡ some f
      → ltb_ℤ (pos 0) m.buffer_file_size ≡ false
      → m.incoming ≡ chunks ++ [] ∷ later
      → AreChunks chunks
      → os.open_append f (m.folder ++ name) (is_binary m.transfer_type) ≡ some f'
      → (m1 m2 : Machine E F) × (command_dele os del m ≡ ok m1)
        × (m1 ≡ reply (codes "250 DELE command is successful\r\n") (record m { files = f }))
        × (command_stor os put m1 ≡ ok m2)
        × (lawful.content m2.files (m.folder ++ name) ≡ some (flatten chunks))
        × (m2.incoming ≡ later)
        × (m2.session ≡ record m.session { data_channel = m2.data_channel })
        × (m2.files ≡ write_all os true (m.folder ++ name) chunks f')
  command_dele-stor del put m name chunks later {r} {f} a b plain e d n size i h o =
      let gone = lawful.content-remove m.files (m.folder ++ name) r e n in
      let (m2, did, holds, rest, shut, kept, written) =
        command_stor-content os lawful put (deleted f m) name chunks later b size i h o in
      (
        deleted f m,
        m2,
        command_dele-deleted del m name r f a plain e d n,
        refl,
        did,
        rw gone at holds,
        rest,
        kept,
        written,
      )
