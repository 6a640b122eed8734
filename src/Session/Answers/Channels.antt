-- ===== src/Session/Answers/Channels.antt =====
-- The replies of PORT, AUTH and PASV.
use ftps_server.Base.{
  ℕ, zero, suc, ◌+◌, ◌≡◌, refl, Bool, true, false, ◌∙◌, ◌&&◌, pos, arith, ℤ, Result, ok, err, ◌>>=◌,
  Bool-cases, inl, inr,
}
use ftps_server.Text.{Bytes, codes, equal}
use ftps_server.Net.World.{Net, World}
use ftps_server.Net.Transport.{Transport, move_assign, push, new_transport, set_tls}
use ftps_server.Net.Endpoints.{Listener, connect, new_listener, listener_on, bind, accept}
use ftps_server.Net.Pushed.{
  pushed, pushed-close, pushed-new_transport, pushed-connect, pushed-listener_on, pushed-bind,
  pushed-accept, PushedOf, pushed-set_tls,
}
use ftps_server.Session.State.{Machine, reply}
use ftps_server.Status.{is_success}
use ftps_server.Command.{Command, get_argument}
use ftps_server.Session.Channel.{
  command_port, command_auth, command_pasv, secure_data, is_private, close_listener, answer_passive,
  enter_passive, passive_reply, with_allocation, Allocation, allocate_port, search_port,
}
use ftps_server.Number.{stoi}
use ftps_server.Session.Answers.Replies.{Answered, >>=-Answered, pushed-reply}

module _ {E : Type 0} (net : Net E) where
  pushed-allocate_port :
      (n : ℕ) (address : Bytes) (a : Allocation E)
      → pushed (allocate_port net n address a).world ≡ pushed a.world
  unfolding allocate_port
  pushed-allocate_port zero address a = refl
  pushed-allocate_port (suc n) address a =
      let (l, w1) = listener_on net address (pos a.port) (pos 1) a.world in
      let (result, w2) = bind net l w1 in
      let made =
        pushed-bind net l w1 ∙ pushed-listener_on net address (pos a.port) (pos 1) a.world in
      elim (Bool-cases (is_success result)) [
        | inl e ↦ rw e made
        | inr e ↦ rw e (
            pushed-allocate_port n address (record {
              next_port = a.next_port + 1;
              port = a.next_port;
              bound = false;
              listener = l;
              world = w2;
            })
            ∙ made)
      ]

  pub pushed-search_port :
      {F : Type 0} (m : Machine E F) → pushed (search_port net m).world ≡ pushed m.world
  unfolding search_port new_listener
  pushed-search_port m =
      pushed-allocate_port 20 m.control_channel.address _ ∙ pushed-new_transport net m.world

module _ {E F : Type 0} (net : Net E) (c : Command) (m : Machine E F) where
  pub command_port-Answered : Answered 1 2 m (command_port net c m)
  unfolding command_port
  command_port-Answered = >>=-Answered 1 2 m (get_argument c 0) _ λ address.
      >>=-Answered 1 2 m (get_argument c 1) _ λ text. >>=-Answered 1 2 m (stoi text) _ λ number.
        let (client, w1) = new_transport net m.world in
        let data_channel = (move_assign m.data_channel client).0 in
        let (result, dc, w2) = connect net data_channel address number w1 in
        let m1 = record m { session = record m.session { data_channel = dc }; world = w2 } in
        let made =
          pushed-connect net data_channel address number w1 ∙ pushed-new_transport net m.world in
        elim (Bool-cases (is_success result)) [
          | inl e ↦ rw e (unfold pushed push in ground (arith, made))
          | inr e ↦ rw e (unfold pushed push in ground (arith, made))
        ]

  keep_control : Result (ℤ × Transport × World E) → Machine E F → Result (Machine E F)
  keep_control r m1 = r >>= λ (result, control, w).
      ok (record m1 { session = record m1.session { control_channel = control }; world = w })

  keep_control-Answered :
      (r : Result (ℤ × Transport × World E)) (m1 : Machine E F)
      → pushed m1.world ≡ pushed m.world + 1
      → PushedOf net (pushed m1.world) r
      → Answered 1 1 m (keep_control r m1)
  unfolding keep_control
  keep_control-Answered (ok (result, control, w)) m1 h e = omega (arith, e)
  keep_control-Answered (err f) m1 h e = tt

  pub command_auth-Answered : Answered 1 1 m (command_auth net c m)
  unfolding command_auth keep_control
  command_auth-Answered = >>=-Answered 1 1 m (get_argument c 0) _ λ service.
      let m1 = reply (codes "234 AUTH TLS successful\r\n") m in
      let more : pushed m1.world ≡ pushed m.world + 1 =
        omega (arith, pushed-reply (codes "234 AUTH TLS successful\r\n") m) in
      elim (Bool-cases (equal service (codes "TLS"))) [
        | inl e ↦ rw e (
            keep_control-Answered (set_tls net m1.control_channel m1.world) m1 more
              (pushed-set_tls net m1.control_channel m1.world))
        | inr e ↦ rw e (
            omega (arith, pushed-reply (codes "500 AUTH specified service is not supported\r\n") m))
      ]

abbrev IsSilent : {E F : Type 0} → Machine E F → Result (Machine E F) → Type 0
IsSilent m (ok m') = pushed m'.world ≡ pushed m.world
IsSilent m (err f) = Unit

module _ {E F : Type 0} (net : Net E) where
  keep_data-IsSilent :
      (r : Result (ℤ × Transport × World E)) (m : Machine E F)
      → PushedOf net (pushed m.world) r
      → IsSilent m (
          r >>= λ (result, data_channel', w).
          ok (record m { session = record m.session { data_channel = data_channel' }; world = w }))
  keep_data-IsSilent (ok (result, data_channel', w)) m e = omega (arith, e)
  keep_data-IsSilent (err f) m e = tt

  secure_data-IsSilent : (m : Machine E F) → IsSilent m (secure_data net m)
  unfolding secure_data
  secure_data-IsSilent m =
      elim (Bool-cases (m.control_channel.secure && is_private m.protection_level)) [
        | inl e ↦
            rw (e, secure_data)
              (keep_data-IsSilent (set_tls net m.data_channel m.world) m
                (pushed-set_tls net m.data_channel m.world))
        | inr e ↦ rw (e, secure_data) (omega arith)
      ]

  close_listener-Answered :
      (m m2 : Machine E F) (r : Result (Machine E F)) (l : Listener)
      → pushed m2.world ≡ pushed m.world + 1
      → IsSilent m2 r
      → Answered 1 1 m (r >>= λ m3. ok (close_listener net l m3))
  close_listener-Answered m m2 (ok m3) l h g =
      omega (arith, h, g, pushed-close l.transport m3.world)
  close_listener-Answered m m2 (err f) l h g = tt

  answer_passive-Answered :
      (b : Bool) (a : Allocation E) (m : Machine E F) → Answered 1 1 m (answer_passive net b a m)
  unfolding answer_passive enter_passive
  answer_passive-Answered false a m =
      omega (arith, pushed-reply (codes "500 PASV command if failure") m)
  answer_passive-Answered true a m =
      let text = passive_reply m.control_channel.address a.port in
      let m1 = reply text m in
      let (result, data_channel', w) = accept net a.listener m1.data_channel m1.world in
      let m2 = record m1 {
        session = record m1.session { data_channel = data_channel' };
        world = w;
      } in
      close_listener-Answered m m2 (secure_data net m2) a.listener
        (omega (arith, pushed-reply text m, pushed-accept net a.listener m1.data_channel m1.world))
        (secure_data-IsSilent m2)

  from_search :
      (a : Allocation E) (m : Machine E F) (r : Result (Machine E F))
      → pushed a.world ≡ pushed m.world
      → Answered 1 1 (with_allocation net a m) r
      → Answered 1 1 m r
  from_search a m (ok m') e h = omega (arith, e, h)
  from_search a m (err f) e h = tt

  pub command_pasv-Answered :
      (c : Command) (m : Machine E F) → Answered 1 1 m (command_pasv net c m)
  unfolding command_pasv
  command_pasv-Answered c m =
      let a = search_port net m in
      from_search a m (answer_passive net a.bound a (with_allocation net a m))
        (pushed-search_port net m) (answer_passive-Answered a.bound a (with_allocation net a m))
