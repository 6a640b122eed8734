-- ===== src/Session/Answers.antt =====
-- The replies of the commands.
mod Replies
mod Channels
use ftps_server.Base.{
  ℕ, zero, suc, ◌+◌, ◌<◌, ◌≤◌, ◌≡◌, ◌≢◌, refl, Bool, true, false, List, [], ◌∷◌, Option, none, some,
  ◌∙◌, ◌&&◌, pos, arith, ℤ, Result, ok, err, ◌>>=◌, Bool-cases, inl, inr,
}
use ftps_server.Text.{Bytes, codes, equal}
use ftps_server.Net.World.{Net, NetCall, sent, record_sent, signalled, World, note}
use ftps_server.Net.Tls.{
  TlsSession, free_tls_session, close_session, create_tls_session, handshake, handshake_loop,
  new_session, initialize_tls_global_state,
}
use ftps_server.Net.Transport.{
  Transport, move_assign, push, close, new_transport, from_socket, set_tls,
}
use ftps_server.Net.Endpoints.{Listener, connect, new_listener, listener_on, bind, accept}
use ftps_server.Net.Pushed.{
  pushed, pushed-push, pushed-close, pushed-new_transport, pushed-connect, pushed-listener_on,
  pushed-bind, pushed-accept, PushedOf, pushed-set_tls,
}
use ftps_server.Session.State.{SessionState, wait_login, wait_password, is_state, Machine, reply}
use ftps_server.Status.{is_success}
use ftps_server.Command.{
  CommandType, Command, get_argument, user, pass, syst, pwd, cwd, port, list, stor, type, quit,
  feat, auth, pbsz, prot, pasv, allo, dele, rnfr, rnto, site_utime, unknown, incomplete,
}
use ftps_server.FileSystem.Os.{Os}
use ftps_server.Session.Login.{
  command_user, command_pass, command_quit, try_password, answer_login, accept_login, refuse_login,
}
use ftps_server.Session.Settings.{
  command_syst, command_pwd, command_type, command_feat, command_pbsz, command_prot, command_allo,
}
use ftps_server.Session.Folder.{command_cwd, command_dele, command_rnfr, command_rnto}
use ftps_server.Session.Channel.{
  command_port, command_auth, command_pasv, secure_data, is_private, close_listener, answer_passive,
  enter_passive, passive_reply, with_allocation, Allocation, allocate_port, search_port,
}
use ftps_server.Session.Transfer.{
  signal_all, command_list, command_stor, receive, opened_file, is_binary, list_lines, push_data,
  close_data, notify_put,
}
use ftps_server.FileSystem.Listing.{get_files}
use ftps_server.Number.{stoi}
use ftps_server.Session.Answers.Replies.{Answered, >>=-Answered, pushed-reply}
use ftps_server.Session.Answers.Channels.{
  command_port-Answered, command_auth-Answered, command_pasv-Answered,
}
use ftps_server.Observer.{file_put, notify_observers}
use ftps_server.Session.Dispatch.{dispatch}
use ftps_server.Base.{subst, ◌++◌, if◌then◌else◌}

module _ {E : Type 0} where
  pushed-signal_all : (l : List (ℕ × Bytes)) (w : World E) → pushed (signal_all l w) ≡ pushed w
  unfolding signal_all
  pushed-signal_all [] w = refl
  pushed-signal_all ((o, m) ∷ l) w =
      let rest = pushed-signal_all l (note (signalled o m) w) in rest ∙ unfold pushed in omega arith

-- One reply in the right order of commands, and two out of it.
abbrev in_order : {E F : Type 0} → SessionState → Machine E F → ℕ
in_order s m = if is_state m.state s then 1 else 2

-- How often a command writes, at the fewest and at the most.
abbrev pub fewest : {E F : Type 0} → CommandType → Machine E F → ℕ
fewest user m = in_order wait_login m
fewest pass m = in_order wait_password m
fewest list m = 3
fewest stor m = 2
fewest quit m = 0
fewest _ m = 1

abbrev pub most : {E F : Type 0} → CommandType → Machine E F → ℕ
most port m = 2
most t m = fewest t m

module _ {E F : Type 0} (c : Command) (m : Machine E F) where
  command_user-Answered :
      Answered (in_order wait_login m) (in_order wait_login m) m (command_user c m)
  unfolding command_user pushed push
  command_user-Answered = ground arith

  command_pass-Answered :
      Answered (in_order wait_password m) (in_order wait_password m) m (command_pass c m)
  unfolding command_pass try_password answer_login accept_login refuse_login pushed push
  command_pass-Answered = ground arith

  command_quit-Answered : Answered 0 0 m (command_quit c m)
  unfolding command_quit
  command_quit-Answered = (omega arith, omega arith)

  command_syst-Answered : Answered 1 1 m (command_syst c m)
  unfolding command_syst pushed push
  command_syst-Answered = ground arith

  command_pwd-Answered : Answered 1 1 m (command_pwd c m)
  unfolding command_pwd pushed push
  command_pwd-Answered = ground arith

  command_type-Answered : Answered 1 1 m (command_type c m)
  unfolding command_type pushed push
  command_type-Answered = ground arith

  command_feat-Answered : Answered 1 1 m (command_feat c m)
  unfolding command_feat pushed push
  command_feat-Answered = ground arith

  command_pbsz-Answered : Answered 1 1 m (command_pbsz c m)
  unfolding command_pbsz pushed push
  command_pbsz-Answered = ground arith

  command_prot-Answered : Answered 1 1 m (command_prot c m)
  unfolding command_prot pushed push
  command_prot-Answered = ground arith

  command_allo-Answered : Answered 1 1 m (command_allo c m)
  unfolding command_allo pushed push
  command_allo-Answered = ground arith

module _ {E F : Type 0} (os : Os F) (c : Command) (m : Machine E F) where
  command_cwd-Answered : Answered 1 1 m (command_cwd os c m)
  unfolding command_cwd pushed push
  command_cwd-Answered = ground arith

  command_dele-Answered : Answered 1 1 m (command_dele os c m)
  unfolding command_dele pushed push
  command_dele-Answered = ground arith

  command_rnfr-Answered : Answered 1 1 m (command_rnfr os c m)
  unfolding command_rnfr pushed push
  command_rnfr-Answered = ground arith

  command_rnto-Answered : Answered 1 1 m (command_rnto os c m)
  unfolding command_rnto pushed push
  command_rnto-Answered = ground arith

  command_list-Answered : Answered 3 3 m (command_list os c m)
  unfolding command_list close_data
  command_list-Answered =
      let names = (get_files os m.files m.folder []).1 in
      let m1 = reply (codes "150 ASCII data connection\r\n") m in
      let m2 = push_data (list_lines names) m1 in
      let m3 = reply (codes "226 ASCII Transfer complete\r\n") m2 in
      omega (
        arith,
        pushed-reply (codes "150 ASCII data connection\r\n") m,
        pushed-push m1.data_channel (list_lines names) m1.world,
        pushed-reply (codes "226 ASCII Transfer complete\r\n") m2,
        pushed-close m3.data_channel m3.world,
      )

  command_stor-Answered : Answered 2 2 m (command_stor os c m)
  unfolding command_stor close_data
  command_stor-Answered = >>=-Answered 2 2 m (get_argument c 0) _ λ name.
      let p = m.folder ++ name in
      let (is_open, f) =
        opened_file m.files (os.open_append m.files p (is_binary m.transfer_type)) in
      let m1 = reply (codes "150 STOR file status is OK\r\n") m in
      let (f', rest) = receive os m.buffer_file_size is_open p m.incoming f in
      let m2 = close_data (record m1 { files = f'; incoming = rest }) in
      let m3 = reply (codes "226 ASCII Transfer complete\r\n") m2 in
      omega (
        arith,
        pushed-reply (codes "150 STOR file status is OK\r\n") m,
        pushed-close m1.data_channel m1.world,
        pushed-reply (codes "226 ASCII Transfer complete\r\n") m2,
        pushed-signal_all (notify_observers m.notifier file_put p) m3.world,
      )

module _ {E F : Type 0} (net : Net E) (os : Os F) where
  reply-Answered : (message : Bytes) (m : Machine E F) → Answered 1 1 m (ok (reply message m))
  reply-Answered message m = omega (arith, pushed-reply message m)

  answers :
      (t : CommandType) (c : Command) (m : Machine E F)
      → Answered (fewest t m) (most t m) m (dispatch net os t c m)
  unfolding dispatch
  answers user c m = command_user-Answered c m
  answers pass c m = command_pass-Answered c m
  answers syst c m = command_syst-Answered c m
  answers pwd c m = command_pwd-Answered c m
  answers cwd c m = command_cwd-Answered os c m
  answers port c m = command_port-Answered net c m
  answers list c m = command_list-Answered os c m
  answers stor c m = command_stor-Answered os c m
  answers type c m = command_type-Answered c m
  answers feat c m = command_feat-Answered c m
  answers auth c m = command_auth-Answered net c m
  answers pbsz c m = command_pbsz-Answered c m
  answers prot c m = command_prot-Answered c m
  answers pasv c m = command_pasv-Answered net c m
  answers allo c m = command_allo-Answered c m
  answers dele c m = command_dele-Answered os c m
  answers rnfr c m = command_rnfr-Answered os c m
  answers rnto c m = command_rnto-Answered os c m
  answers quit c m = command_quit-Answered c m
  answers incomplete c m = reply-Answered _ m
  answers site_utime c m = reply-Answered _ m
  answers unknown c m = reply-Answered _ m

  -- What each command that returns writes to the channels of its session: nothing for QUIT, one reply
  -- for most, and two for STOR; three for LIST, with the listing among them; a reply more for USER and
  -- PASS out of order; and one or two for PORT.
  pub dispatch-answers :
      (t : CommandType) (c : Command) (m : Machine E F) {m' : Machine E F}
      → dispatch net os t c m ≡ ok m'
      → (pushed m.world + fewest t m ≤ pushed m'.world)
        × (pushed m'.world ≤ pushed m.world + most t m)
  dispatch-answers t c m e = subst (Answered (fewest t m) (most t m) m) e (answers t c m)

  fewest-lt : (t : CommandType) (m : Machine E F) → t ≢ quit → 0 < fewest t m
  fewest-lt user m h = ground arith
  fewest-lt pass m h = ground arith
  fewest-lt quit m h = absurd (h refl)
  fewest-lt _ m h = omega arith

  -- Every command but QUIT that returns, and does not throw, has written to the channels of its session.
  dispatch-Answered :
      (t : CommandType) (c : Command) (m : Machine E F) {m' : Machine E F}
      → t ≢ quit
      → dispatch net os t c m ≡ ok m'
      → pushed m.world < pushed m'.world
  dispatch-Answered t c m h e =
      let (few, many) = dispatch-answers t c m e in omega (arith, few, fewest-lt t m h)
