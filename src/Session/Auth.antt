-- ===== src/Session/Auth.antt =====
-- src/ftp_session.cpp, `command_auth`, sent again and again: nothing asks whether the control channel
-- has TLS already.
use ftps_server.Base.{ℕ, zero, suc, ◌+◌, ◌*◌, ◌≡◌, ◌≤◌, ◌∙◌, refl, false, List, [], ◌∷◌, arith, ok}
use ftps_server.Text.{Bytes, codes, equal}
use ftps_server.Command.{Command, auth, get_argument}
use ftps_server.FileSystem.Os.{Os}
use ftps_server.Net.World.{Net}
use ftps_server.Net.Tls.{null_session}
use ftps_server.Net.Transport.{push, close, destroy_transport}
use ftps_server.Net.Balance.{Balanced, holds}
use ftps_server.Net.Lifecycle.{
  LoadsKeys, EndsHandshakes, set_tls-again, close-Balanced, destroy_transport-Balanced,
}
use ftps_server.Session.State.{Machine, reply, terminated, is_state, wait_login}
use ftps_server.Session.Channel.{command_auth}
use ftps_server.Session.Dispatch.{dispatch, session_loop, end_session, client_session_thread}
use ftps_server.Session.Lines.{
  IsArgument, HasNoZero, EndsBehind, line_of, parse-auth, session_loop-line,
}

abbrev tls : Command
tls = record { command = auth; arguments = codes "TLS" ∷ [] }

-- The line, a number of times, and then the end.
abbrev pub auth_lines : ℕ → List Bytes
auth_lines zero = [] ∷ []
auth_lines (suc k) = line_of (codes "AUTH ") (codes "TLS") ∷ auth_lines k

module _ {E F : Type 0} where
  -- What the control channel of a session holds, and `n` more, is not freed.
  abbrev Holding : Machine E F → ℕ → Type 0
  Holding m n = Balanced m.world (n + holds m.control_channel.session)

  reply-Holding : (text : Bytes) (m : Machine E F) (n : ℕ) → Holding m n → Holding (reply text m) n
  unfolding push
  reply-Holding text m n b = ground arith

module _ {E F : Type 0} (net : Net E) (keys : LoadsKeys net) (ends : EndsHandshakes net) where
  -- Behind an AUTH, what the control channel held and one object more is lost.
  record Authenticated (m m' : Machine E F) (n : ℕ) : Type 0 where
    did : command_auth net tls m ≡ ok m'
    lost : Holding m' (n + holds m.control_channel.session + 1)
    low : 2 ≤ holds m'.control_channel.session
    high : holds m'.control_channel.session ≤ 3
    state : m'.state ≡ m.state

  command_auth-Authenticated :
      (m : Machine E F) (n : ℕ) → Holding m n → (m' : Machine E F) × Authenticated m m' n
  unfolding command_auth get_argument equal
  command_auth-Authenticated m n b =
      let m1 = reply (codes "234 AUTH TLS successful\r\n") m in
      let (r, t, w, did, lost, low, high) =
        set_tls-again net keys ends m1.control_channel m1.world n (reply-Holding _ m n b) in
      (
        record m1 { session = record m1.session { control_channel = t }; world = w },
        record { did = rw did refl; lost = lost; low = low; high = high; state = refl },
      )

  module _ (os : Os F) where
    -- One more line at the head of the loop.
    session_loop-auth :
        (size n : ℕ) (buffer : Bytes) (messages : List Bytes) (m : Machine E F)
        → 10 ≤ size
        → EndsBehind size buffer
        → is_state m.state terminated ≡ false
        → Holding m n
        → (m' : Machine E F) × (buffer' : Bytes) × Authenticated m m' n
          × (session_loop net os (line_of (codes "AUTH ") (codes "TLS") ∷ messages) buffer m
              ≡ session_loop net os messages buffer' m')
          × EndsBehind size buffer'
    unfolding dispatch
    session_loop-auth size n buffer messages m fits b live h =
        let (m', a) = command_auth-Authenticated m n h in
        let word : IsArgument (codes "TLS") = ((refl, refl), ((refl, refl), ((refl, refl), tt))) in
        let started : HasNoZero (codes "AUTH ") = (refl, (refl, (refl, (refl, (refl, tt))))) in
        let (went, b') =
          session_loop-line net os size b'A' (codes "UTH ") (codes "TLS") buffer messages tls m m'
            started refl word fits b (λ (junk : Bytes). parse-auth (codes "TLS") junk word) live
            a.did in
        (m', _, a, went, b')

    -- What the loop leaves, given the bounds on what its session held before.
    record Lost (messages : List Bytes) (buffer : Bytes) (m : Machine E F) (n least most : ℕ)
        : Type 0 where
      end : Machine E F
      lost : ℕ
      did : session_loop net os messages buffer m ≡ ok end
      holding : Holding end (n + lost)
      low : least ≤ lost
      high : lost ≤ most

    session_loop-auths :
        (k size n : ℕ) (buffer : Bytes) (m : Machine E F)
        → 10 ≤ size
        → EndsBehind size buffer
        → is_state m.state terminated ≡ false
        → Holding m n
        → 2 ≤ holds m.control_channel.session
        → holds m.control_channel.session ≤ 3
        → Lost (auth_lines k) buffer m n (3 * k) (4 * k)
    unfolding session_loop
    session_loop-auths zero size n buffer m fits b live h l g = record {
      end = m;
      lost = 0;
      did = refl;
      holding = omega (arith, h);
      low = omega arith;
      high = omega arith;
    }
    session_loop-auths (suc k) size n buffer m fits b live h l g =
        let (m', buffer', a, went, b') =
          session_loop-auth size n buffer (auth_lines k) m fits b live h in
        let rest =
          session_loop-auths k size (n + holds m.control_channel.session + 1) buffer' m' fits b'
            (rw a.state live) a.lost a.low a.high in
        record {
          end = rest.end;
          lost = holds m.control_channel.session + 1 + rest.lost;
          did = went ∙ rest.did;
          holding = omega (arith, rest.holding);
          low = omega (arith, rest.low);
          high = omega (arith, rest.high);
        }

    -- A client whose handshakes end, and that sends AUTH TLS one more time than a number and then ends
    -- the connection, before any login: the thread of its session returns, and then also behind the
    -- destructor of the control channel objects of GnuTLS are not freed that were not there before, at
    -- least one and three more for each repetition, and at most one and four more. The certificate of
    -- the server is taken to load, the channel to be without TLS at first, and the buffer to hold a
    -- zero byte behind the line.
    pub client_session_thread-loses :
        (k size n : ℕ) (buffer : Bytes) (m : Machine E F)
        → 10 ≤ size
        → EndsBehind size buffer
        → m.state ≡ wait_login
        → m.control_channel.session ≡ null_session
        → Balanced m.world n
        → (m' : Machine E F) × (lost : ℕ) × (client_session_thread net os
              (auth_lines (suc k))
              buffer
              m
            ≡ ok m')
          × Balanced (destroy_transport m'.control_channel m'.world).1 (n + lost)
          × (3 * k + 1 ≤ lost)
          × (lost ≤ 4 * k + 1)
    unfolding client_session_thread end_session is_state
    client_session_thread-loses k size n buffer m fits b st fresh h =
        let m0 = reply (codes "220 FTP server is ready\r\n") m in
        let h0 : Holding m0 n = reply-Holding _ m n (rw fresh (omega (arith, h))) in
        let (m1, buffer', a, went, b') =
          session_loop-auth size n buffer (auth_lines k) m0 fits b (rw st refl) h0 in
        let rest =
          session_loop-auths k size (n + holds m0.control_channel.session + 1) buffer' m1 fits b'
            (rw (a.state, st) refl) a.lost a.low a.high in
        let (control, w) = close rest.end.control_channel rest.end.world in
        let nothing : holds m.control_channel.session ≡ 0 = rw fresh refl in
        let whole : Holding rest.end (n + (rest.lost + 1)) = omega (arith, rest.holding, nothing) in
        (
          end_session rest.end,
          rest.lost + 1,
          rw (went ∙ rest.did) refl,
          destroy_transport-Balanced control w (n + (rest.lost + 1))
              (close-Balanced rest.end.control_channel rest.end.world (n + (rest.lost + 1)) whole),
          omega (arith, rest.low),
          omega (arith, rest.high),
        )
