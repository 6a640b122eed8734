-- ===== src/System/Erased.antt =====
-- A client that takes a file away with no login.
use ftps_server.Base.{length, ◌≤◌, ◌+◌, ℕ, ◌≡◌, refl, true, false, [], ◌∷◌, some, none, get_elem?}
use ftps_server.Text.{Bytes, codes}
use ftps_server.Command.{dele, get_argument}
use ftps_server.FileSystem.Os.{Os}
use ftps_server.FileSystem.Lawful.{IsLawful}
use ftps_server.FileSystem.Directory
use ftps_server.FileSystem.FilePath.{is_path_rooted}
use ftps_server.Net.World.{Net}
use ftps_server.Session.State.{Machine, terminated, is_state}
use ftps_server.Session.Lines.{IsArgument, EndsBehind, line_of}
use ftps_server.Session.Dispatch.{overwrite}
use ftps_server.Server.{Client, reading}
use ftps_server.Session.Replace.{deleted, command_dele-rooted}
use ftps_server.System.Lines.{RunStep-line, read_message-dele}
use ftps_server.System.{System, machine_of, with_machine, RunStep}

module _ {E F : Type 0} (net : Net E) (os : Os F) (lawful : IsLawful os) where
  -- Any client whose session reads commands, logged in or not, can take away any file of the machine
  -- that is no directory and that the server may remove, by one line: DELE with the rooted path of
  -- the file. Behind it the path leads to no file, the process goes on, and the session is what it
  -- was. The path is taken to be one word with no zero byte, and the line to fit into the buffer of
  -- the session, of at most 2000 bytes, with a zero byte behind it.
  pub client-erases :
      (s : System E F) (i n : ℕ) (c : Client) (p r : Bytes) {f : F}
      → s.crashed ≡ false
      → get_elem? s.server.client_sessions i ≡ some c
      → c.point ≡ reading
      → is_state c.state terminated ≡ false
      → EndsBehind n c.buffer
      → length p + 7 ≤ n
      → IsArgument p
      → is_path_rooted p ≡ true
      → os.realpath s.files p ≡ some r
      → Directory.exists os s.files r ≡ false
      → os.remove s.files r ≡ some f
      → let line = line_of (codes "DELE ") p in
        (m : Machine E F) × RunStep net os s (with_machine s i reading (overwrite c.buffer line) m)
        × (lawful.content m.files p ≡ none)
        × (m.session ≡ c.session)
  unfolding get_argument
  client-erases s i n c p r {f} alive at_i point live b l a rooted e d gone =
      let m = machine_of s c.session [] in
      let did =
        command_dele-rooted os lawful (record { command = dele; arguments = p ∷ [] }) m p r f refl
          rooted e d gone in
      (
        deleted f m,
        RunStep-line net os s i c (line_of (codes "DELE ") p) [] (deleted f m) alive at_i point
            (read_message-dele net os n p c.buffer m (deleted f m) b l a live did),
        lawful.content-remove s.files p r e gone,
        refl,
      )
