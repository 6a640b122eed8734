-- ===== src/System/Replaced.antt =====
-- A client that replaces a file, in the whole program.
use ftps_server.Base.{
  true, arith, ℤ, ok, ap, ◌∙◌, length, ◌≤◌, ◌+◌, ℕ, ◌≡◌, refl, false, List, [], ◌∷◌, ◌++◌, some,
  get_elem?, pos, ltb_ℤ,
}
use ftps_server.Text.{Bytes, codes}
use ftps_server.Command.{dele, stor, get_argument}
use ftps_server.FileSystem.Os.{Os}
use ftps_server.FileSystem.Lawful.{IsLawful}
use ftps_server.FileSystem.Directory
use ftps_server.Net.World.{Net, World}
use ftps_server.Net.Transport.{Transport}
use ftps_server.Session.Pull.{Pulls, HasEnd, receive_from, receive_from-receive}
use ftps_server.Session.Dispatch.{overwrite}
use ftps_server.Session.State.{terminated, is_state}
use ftps_server.Session.Transfer.{is_binary, receive}
use ftps_server.Session.Receive.{AreChunks, write_all, receive_all_lem}
use ftps_server.Session.Contents.{flatten}
use ftps_server.Session.Lines.{
  IsArgument, line_of, length-line_of, EndsBehind, EndsBehind-overwrite,
}
use ftps_server.Session.Replace.{IsSamePath, command_dele-stor}
use ftps_server.Server.{Client, reading}
use ftps_server.System.{System, machine_of, with_machine, RunReach, here, next}
use ftps_server.System.Lines.{RunStep-line, read_message-dele, read_message-stor}
use ftps_server.System.Thread.{get_elem?-set_at}

HasEnd-end : (chunks : List Bytes) → HasEnd (chunks ++ [] ∷ [])
HasEnd-end [] = tt
HasEnd-end ([] ∷ chunks) = tt
HasEnd-end ((c ∷ cs) ∷ chunks) = HasEnd-end chunks

module _ {E F : Type 0} (net : Net E) (os : Os F) where
  -- What the loop of STOR on the channel itself leaves, if the channel gives these chunks and the end.
  receive_from-write_all :
      (t : Transport) (p : Bytes) (size : ℤ) (chunks : List Bytes) (w w' : World E) (f : F)
      → ltb_ℤ (pos 0) size ≡ false
      → AreChunks chunks
      → Pulls net t w (chunks ++ [] ∷ []) w'
      → (w'' : World E) × (receive_from net os t true p (length (chunks ++ [] ∷ [])) size w f
          ≡ ok (write_all os true p chunks f, w''))
  unfolding receive
  receive_from-write_all t p size chunks w w' f none_ h ps =
      let messages = chunks ++ [] ∷ [] in
      let (w'', did, _) =
        receive_from-receive net os t true p (length messages) size messages w w' f (omega arith)
          (HasEnd-end chunks) ps in
      let all : receive os size true p messages f ≡ (write_all os true p chunks f, []) =
        rw none_ (receive_all_lem os true p chunks [] f h) in
      (w'', did ∙ ap (λ (x : F × List Bytes). ok (x.0, w'')) all)

module _ {E F : Type 0} (net : Net E) (os : Os F) (lawful : IsLawful os) where
  -- A client whose session reads commands, logged in or not, can replace the content of any file that
  -- is no directory and that the server may remove and create, by the two lines DELE and STOR with
  -- the same name, if its data channel then gives the bytes that it sends, in pieces that are not
  -- empty, and the end. Steps of the program lead to where the file holds exactly these bytes, and
  -- the session is what it was but for its data channel; the loop of STOR on the data channel itself,
  -- with fuel for each `pull`, comes to its end with the same files. The name leads to the file behind
  -- the current folder of the session; it is not rooted, or that folder is empty, as it is before a
  -- login. It is taken to be one word with no zero byte, and no size to be announced; both lines fit
  -- into the buffer of the session, of at most 2000 bytes, with a zero byte behind them.
  pub client-replaces :
      (s : System E F) (i k : ℕ) (c : Client) (name r : Bytes) (chunks : List Bytes) (w : World E)
      {f f' : F}
      → s.crashed ≡ false
      → get_elem? s.server.client_sessions i ≡ some c
      → c.point ≡ reading
      → is_state c.state terminated ≡ false
      → EndsBehind k c.buffer
      → length name + 7 ≤ k
      → IsArgument name
      → IsSamePath (machine_of s c.session []) name
      → os.realpath s.files (c.folder ++ name) ≡ some r
      → Directory.exists os s.files r ≡ false
      → os.remove s.files r ≡ some f
      → ltb_ℤ (pos 0) c.buffer_file_size ≡ false
      → AreChunks chunks
      → Pulls net c.data_channel s.server.world (chunks ++ [] ∷ []) w
      → os.open_append f (c.folder ++ name) (is_binary c.transfer_type) ≡ some f'
      → let p = c.folder ++ name in
        (t : System E F) × (d : Client) × RunReach net os s t
        × (get_elem? t.server.client_sessions i ≡ some d)
        × (lawful.content t.files p ≡ some (flatten chunks))
        × (d.point ≡ reading)
        × (d.session ≡ record c.session { data_channel = d.data_channel })
        × ((w' : World E) × (receive_from net os c.data_channel true p
                (length (chunks ++ [] ∷ []))
                c.buffer_file_size
                s.server.world
                f'
              ≡ ok (t.files, w')))
  unfolding get_argument
  client-replaces s i k c name r chunks w {f} {f'} alive at_i point live b l a same e d n size h ps
        o =
      let m = machine_of s c.session (chunks ++ [] ∷ []) in
      let (m1, m2, did, is_m1, stored, holds, rest, kept, written) =
        command_dele-stor os lawful (record { command = dele; arguments = name ∷ [] })
          (record { command = stor; arguments = name ∷ [] }) m name chunks [] refl refl same e d n
          size refl h o in
      let live1 : is_state m1.state terminated ≡ false = rw is_m1 live in
      let line = line_of (codes "DELE ") name in
      let put = line_of (codes "STOR ") name in
      let b1 = overwrite c.buffer line in
      let fits = length-line_of (codes "DELE ") name refl l in
      let s1 = with_machine s i reading b1 m1 in
      let c1 : Client = record { session = m1.session; point = reading; buffer = b1 } in
      let c2 : Client = record {
        session = m2.session;
        point = reading;
        buffer = overwrite b1 put;
      } in
      let at_1 = get_elem?-set_at i c1 c s.server.client_sessions at_i in
      let ends1 = EndsBehind-overwrite k c.buffer line fits b in
      let (w', looped) =
        receive_from-write_all net os c.data_channel (c.folder ++ name) c.buffer_file_size chunks
          s.server.world w f' size h ps in
      (
        with_machine s1 i reading (overwrite b1 put) m2,
        c2,
        next
            (next here (
              RunStep-line net os s i c line (chunks ++ [] ∷ []) m1 alive at_i point
                (read_message-dele net os k name c.buffer m m1 b l a live did)))
            (RunStep-line net os s1 i c1 put m1.incoming m2 alive at_1 refl
              (read_message-stor net os k name b1 m1 m2 ends1 l a live1 stored)),
        get_elem?-set_at i c2 c1 s1.server.client_sessions at_1,
        holds,
        refl,
        kept,
        (w', rw written looped),
      )
