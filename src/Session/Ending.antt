-- ===== src/Session/Ending.antt =====
-- The end of a session's thread.
use ftps_server.Base.{◌≡◌, refl, List, ◌∷◌, arith, pos, ok, >>=-eq-ok}
use ftps_server.Text.{Bytes, codes}
use ftps_server.FileSystem.Os.{Os}
use ftps_server.Net.World.{Net, NetCall, closed, World}
use ftps_server.Net.Transport.{Transport, close}
use ftps_server.Session.State.{terminated, Machine, reply}
use ftps_server.Session.Dispatch.{session_loop, end_session, client_session_thread}

module _ {E : Type 0} where
  close-closed :
      (t : Transport) (w : World E)
      → (calls : List NetCall) × ((close t w).1.calls ≡ closed t.socket ∷ calls)
        × ((close t w).0.socket ≡ pos 0)
  unfolding close
  close-closed t w = (_, refl, refl)

module _ {E F : Type 0} where
  end_session_lem :
      (m : Machine E F)
      → ((end_session m).state ≡ terminated)
        × ((end_session m).control_channel.socket ≡ pos 0)
        × ((calls : List NetCall) × ((end_session m).world.calls
              ≡ closed m.control_channel.socket ∷ calls))
  unfolding end_session
  end_session_lem m =
      let (calls, c, s) = close-closed m.control_channel m.world in (refl, s, (calls, c))

module _ {E F : Type 0} (net : Net E) (os : Os F) where
  -- A thread that ends leaves the session terminated, and its last call closed the socket that the
  -- control channel had at the end of the loop.
  pub client_session_thread_ends :
      (messages : List Bytes) (buffer : Bytes) (m : Machine E F) {m' : Machine E F}
      → client_session_thread net os messages buffer m ≡ ok m'
      → (last : Machine E F) × (session_loop net os messages buffer
            (reply (codes "220 FTP server is ready\r\n") m)
          ≡ ok last)
        × (m'.state ≡ terminated)
        × (m'.control_channel.socket ≡ pos 0)
        × ((calls : List NetCall) × (m'.world.calls ≡ closed last.control_channel.socket ∷ calls))
  unfolding client_session_thread
  client_session_thread_ends messages buffer m {m'} e =
      let (last, l, f) =
        >>=-eq-ok
          (session_loop net os messages buffer (reply (codes "220 FTP server is ready\r\n") m))
          (λ x. ok (end_session x)) e in
      let g : end_session last ≡ m' = ground arith in
      let (state, socket, calls) = end_session_lem last in
      (last, l, rw g at state, rw g at socket, rw g at calls)
