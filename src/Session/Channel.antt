-- ===== src/Session/Channel.antt =====
-- The handlers that set the channels up: PORT, PASV and AUTH.
use ftps_server.Base.{
  ℕ, zero, suc, ◌+◌, ◌/◌, ◌%◌, ◌^◌, ◌++◌, Bool, true, false, ◌&&◌, if◌then◌else◌, pos, Result, ok,
  ◌>>=◌,
}
use ftps_server.Text.{Bytes, codes, equal, replace}
use ftps_server.Number.{stoi, to_string}
use ftps_server.Status.{is_success}
use ftps_server.Command.{Command, get_argument}
use ftps_server.Net.World.{Net, World}
use ftps_server.Net.Transport.{set_tls, close}
use ftps_server.Net.Endpoints.{
  Listener, new_client, assign_client, connect, new_listener, listener_on, bind, accept,
}
use ftps_server.Session.State.{ProtectionLevel, clear, safe, confidential, private, Machine, reply}

abbrev pub is_private : ProtectionLevel → Bool
is_private private = true
is_private clear = false
is_private safe = false
is_private confidential = false

-- The two bytes of a port in the reply of PASV: `(port & 0xFF00) >> 8` and `port & 0x00FF`.
abbrev pub high_byte : ℕ → ℕ
high_byte port = port / 2 ^ 8 % 2 ^ 8

abbrev pub low_byte : ℕ → ℕ
low_byte port = port % 2 ^ 8

unfoldable pub passive_reply : Bytes → ℕ → Bytes
unfolding replace to_string
passive_reply address port =
    codes "227 Entering Passive Mode ("
    ++ (replace b'.' b',' address
        ++ (codes ","
            ++ (to_string (pos (high_byte port))
                ++ (codes "," ++ (to_string (pos (low_byte port)) ++ codes ")\r\n")))))

-- What the search for a port leaves: the counter, the last port taken, whether its listener is
-- bound, and that listener.
pub record Allocation (E : Type 0) : Type 0 where
  pub next_port : ℕ
  pub port : ℕ
  pub bound : Bool
  pub listener : Listener
  pub world : World E

module _ {E : Type 0} (net : Net E) where
  -- The `for` loop with the attempts left; the listener of a failed attempt is overwritten.
  unfoldable pub allocate_port : ℕ → Bytes → Allocation E → Allocation E
  allocate_port zero address a = a
  allocate_port (suc attempts) address a =
      let (l, w1) = listener_on net address (pos a.port) (pos 1) a.world in
      let (result, w2) = bind net l w1 in
      let rest = allocate_port attempts address (record {
        next_port = a.next_port + 1;
        port = a.next_port;
        bound = false;
        listener = l;
        world = w2;
      }) in
      if is_success result then record a { bound = true; listener = l; world = w2 } else rest

module _ {E F : Type 0} (net : Net E) where
  unfoldable pub command_port : Command → Machine E F → Result (Machine E F)
  command_port c m = do
    address ← get_argument c 0
    text ← get_argument c 1
    port ← stoi text
    let (client, w1) = new_client net m.world
    let data_channel = (assign_client m.data_channel client).0
    let (result, data_channel', w2) = connect net data_channel address port w1
    let m1 = record m { session = record m.session { data_channel = data_channel' }; world = w2 }
    ok (
        if is_success result
        then reply (codes "220 PORT command is accepted\r\n")
            (reply (codes "220 PORT command is accepted\r\n") m1)
        else reply (codes "520 PORT cannot create data channel\r\n") m1)

  unfoldable pub command_auth : Command → Machine E F → Result (Machine E F)
  command_auth c m = do
    service ← get_argument c 0
    let m1 = reply (codes "234 AUTH TLS successful\r\n") m
    elim (equal service (codes "TLS")) [
      | false ↦ ok (reply (codes "500 AUTH specified service is not supported\r\n") m)
      | true ↦ set_tls net m1.control_channel m1.world >>= λ (result, control, w).
          ok (record m1 { session = record m1.session { control_channel = control }; world = w })
    ]

  -- TLS on the accepted data channel, if the control channel has it and the level is private.
  unfoldable pub secure_data : Machine E F → Result (Machine E F)
  secure_data m = elim (m.control_channel.secure && is_private m.protection_level) [
    | false ↦ ok m
    | true ↦ set_tls net m.data_channel m.world >>= λ (result, data_channel', w).
        ok (record m { session = record m.session { data_channel = data_channel' }; world = w })
  ]

  abbrev pub close_listener : Listener → Machine E F → Machine E F
  close_listener l m = record m { world = (close l.transport m.world).1 }

  -- Behind the search for a port.
  unfoldable pub enter_passive : Bytes → Allocation E → Machine E F → Result (Machine E F)
  enter_passive address a m =
      let m1 = reply (passive_reply address a.port) m in
      let (result, data_channel', w) = accept net a.listener m1.data_channel m1.world in
      let m2 = record m1 {
        session = record m1.session { data_channel = data_channel' };
        world = w;
      } in
      secure_data m2 >>= λ m3. ok (close_listener a.listener m3)

  -- The search that PASV starts, with the next port and twenty attempts.
  unfoldable pub search_port : Machine E F → Allocation E
  search_port m =
      let (l, w) = new_listener net m.world in
      allocate_port net 20 m.control_channel.address (record {
        next_port = m.data_port + 1;
        port = m.data_port;
        bound = false;
        listener = l;
        world = w;
      })

  abbrev pub with_allocation : Allocation E → Machine E F → Machine E F
  with_allocation a m = record m { data_port = a.next_port; world = a.world }

  unfoldable pub answer_passive : Bool → Allocation E → Machine E F → Result (Machine E F)
  answer_passive false a m = ok (reply (codes "500 PASV command if failure") m)
  answer_passive true a m = enter_passive m.control_channel.address a m

  unfoldable pub command_pasv : Command → Machine E F → Result (Machine E F)
  command_pasv c m = let a = search_port m in answer_passive a.bound a (with_allocation a m)
