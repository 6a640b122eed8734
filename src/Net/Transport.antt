-- ===== src/Net/Transport.antt =====
-- src/tcp_transport.h, src/tcp_transport.cpp: the class `tcp_transport`.
use ftps_server.Base.{
  ℕ, Bool, false, Option, none, some, [], if◌then◌else◌, ℤ, pos, Result, ok, ◌>>=◌,
}
use ftps_server.Text.{Bytes}
use ftps_server.Status.{operation_failure, is_success, of_bool}
use ftps_server.Net.World.{Net, socket_given, closed, sent, World, note}
use ftps_server.Net.Tls.{
  TlsSession, move_session, new_session, close_session, push_session, pull_session,
  create_tls_session, bind_session, destroy_session, handshake,
}

pub record Transport : Type 0 where
  pub socket : ℤ
  pub session : TlsSession
  pub secure : Bool
  pub address : Bytes
  pub port : ℤ

abbrev named_by : Transport → Option (Bytes × ℕ) → Transport
named_by t none = t
named_by t (some (address, port)) = record t { address = address; port = pos port }

-- Move assignment `target = std::move(other)`: the new target and the new `other`. A socket that
-- the target held is not closed.
abbrev pub move_assign : Transport → Transport → Transport × Transport
move_assign target other = (
  record {
    socket = other.socket;
    session = (move_session other.session).0;
    secure = other.secure;
    address = other.address;
    port = other.port;
  },
  record other {
    socket = pos 0;
    session = (move_session other.session).1;
    secure = false;
    address = [];
    port = pos 0;
  },
)

-- The move constructor leaves `m_secure` and `m_port` of the source.
abbrev pub move_construct : Transport → Transport × Transport
move_construct other =
    (other, record other { socket = pos 0; session = (move_session other.session).1; address = [] })

module _ {E : Type 0} where
  -- `push`: the result of the call is not read anywhere.
  unfoldable pub push : Transport → Bytes → World E → World E
  push t bytes w = if t.secure then push_session t.session bytes w else note (sent t.socket bytes) w

  unfoldable pub close : Transport → World E → Transport × World E
  unfolding close_session
  close t w =
      let (session', w') = if t.secure then close_session t.session w else (t.session, w) in
      (record t { socket = pos 0; session = session' }, note (closed t.socket) w')

  -- The destructor: it does not close the socket, and then that of the session is called.
  abbrev pub destroy_transport : Transport → World E → Transport × World E
  destroy_transport t w =
      let (session', w') = destroy_session t.session w in (record t { session = session' }, w')

module _ {E : Type 0} (net : Net E) where
  -- The default constructor.
  unfoldable pub new_transport : World E → Transport × World E
  unfolding new_session
  new_transport w =
      let (session, w1) = new_session w in
      let (fd, env') = net.socket w1.env in
      (
        record { socket = fd; session = session; secure = false; address = []; port = pos 0 },
        note (socket_given fd) (record w1 { env = env' }),
      )

  unfoldable pub pull : Transport → ℕ → World E → Bytes × World E
  unfolding pull_session
  pull t length w =
      let (bytes, env') = net.recv w.env t.socket length in
      if t.secure then pull_session net t.session length w else (bytes, record w { env = env' })

  -- The constructor on a socket.
  unfoldable pub from_socket : ℤ → World E → Transport × World E
  unfolding new_session
  from_socket fd w =
      let (session, w1) = new_session w in
      let t : Transport = record {
        socket = fd;
        session = session;
        secure = false;
        address = [];
        port = pos 0;
      } in
      (named_by t (net.getsockname w1.env fd), w1)

  unfoldable pub set_tls : Transport → World E → Result (ℤ × Transport × World E)
  unfolding create_tls_session handshake
  set_tls t w =
      let (r, s, w') = bind_session net t.session w in
      if is_success r
      then (handshake net s w' >>= λ (secure, s', w'').
          ok (of_bool secure, record t { session = s'; secure = secure }, w''))
      else ok (operation_failure, record t { session = s }, w')
