-- ===== src/Net/Endpoints.antt =====
-- src/tcp_client.cpp and src/tcp_listener.cpp. A client is a transport with one more method.
use ftps_server.Base.{ℕ, ◌%◌, ◌^◌, if◌then◌else◌, ℤ, pos, ltb_ℤ}
use ftps_server.Text.{Bytes}
use ftps_server.Number.{to_word}
use ftps_server.Status.{operation_success, operation_failure}
use ftps_server.Net.World.{Net, socket_given, listened, World, note}
use ftps_server.Net.Transport.{Transport, move_assign, move_construct, new_transport, from_socket}

-- `(uint16_t) port`.
abbrev pub to_port : ℤ → ℕ
to_port port = to_word port % 2 ^ 16

pub record Listener : Type 0 where
  pub transport : Transport
  pub open transport use *
  pub queue_size : ℤ

-- The move constructor and the move assignment of `tcp_listener`: the new value of the target and of
-- the source.
abbrev pub move_listener : Listener → Listener × Listener
move_listener other =
    let (t, source) = move_construct other.transport in
    (
      record { transport = t; queue_size = other.queue_size },
      record { transport = source; queue_size = pos 0 },
    )

abbrev pub assign_listener : Listener → Listener → Listener × Listener
assign_listener target other =
    let (t, source) = move_assign target.transport other.transport in
    (
      record { transport = t; queue_size = other.queue_size },
      record { transport = source; queue_size = pos 0 },
    )

-- The move constructor and the move assignment of `tcp_client`.
abbrev move_client : Transport → Transport × Transport
move_client other = move_construct other

abbrev pub assign_client : Transport → Transport → Transport × Transport
assign_client target other = move_assign target other

module _ {E : Type 0} (net : Net E) where
  -- The constructors of `tcp_client`, without and with a socket.
  abbrev pub new_client : World E → Transport × World E
  new_client w = new_transport net w

  abbrev pub client_on_socket : ℤ → World E → Transport × World E
  client_on_socket fd w = from_socket net fd w

  -- `tcp_client::connect`.
  unfoldable pub connect : Transport → Bytes → ℤ → World E → ℤ × Transport × World E
  connect t address port w =
      let (done, env') = net.connect w.env t.socket address (to_port port) in
      let w' = record w { env = env' } in
      if done
      then (operation_success, record t { address = address; port = port }, w')
      else (operation_failure, t, w')

  -- The two constructors of `tcp_listener`.
  unfoldable pub new_listener : World E → Listener × World E
  unfolding new_transport
  new_listener w =
      let (t, w') = new_transport net w in (record { transport = t; queue_size = pos 0 }, w')

  unfoldable pub listener_on : Bytes → ℤ → ℤ → World E → Listener × World E
  unfolding new_transport
  listener_on address port queue_size w =
      let (t, w') = new_transport net w in
      (
        record { transport = record t { address = address; port = port }; queue_size = queue_size },
        w',
      )

  -- `tcp_listener::bind`: it listens only if the address is bound.
  unfoldable pub bind : Listener → World E → ℤ × World E
  bind l w =
      let (done, env') = net.bind w.env l.socket l.address (to_port l.port) in
      let w' = record w { env = env' } in
      if done
      then (operation_success, note (listened l.socket l.queue_size) w')
      else (operation_failure, w')

  -- `tcp_listener::accept` into `target`.
  unfoldable pub accept : Listener → Transport → World E → ℤ × Transport × World E
  unfolding from_socket
  accept l target w =
      let (fd, env') = net.accept w.env l.socket in
      let w' = record w { env = env' } in
      let (t, w'') = from_socket net fd (note (socket_given fd) w') in
      if ltb_ℤ fd (pos 0)
      then (operation_failure, target, w')
      else (operation_success, (move_assign target t).0, w'')
