-- ===== src/Session/Dispatch.antt =====
-- `process_command`, and the thread that reads commands from the control channel.
use ftps_server.Base.{
  ℕ, List, [], ◌∷◌, ◌++◌, Option, none, some, if◌then◌else◌, length, take, drop, Result, ok, err,
  past_end, ◌>>=◌,
}
use ftps_server.Text.{Bytes, codes}
use ftps_server.Command.{
  CommandType, Command, parse, user, pass, syst, pwd, cwd, port, list, stor, type, quit, feat, auth,
  pbsz, prot, pasv, allo, dele, rnfr, rnto, site_utime, unknown, incomplete,
}
use ftps_server.FileSystem.Os.{Os}
use ftps_server.Net.World.{Net}
use ftps_server.Net.Transport.{close}
use ftps_server.Session.State.{Machine, terminated, is_state, reply, with_state}
use ftps_server.Session.Login.{command_user, command_pass, command_quit}
use ftps_server.Session.Settings.{
  command_syst, command_pwd, command_type, command_feat, command_pbsz, command_prot, command_allo,
}
use ftps_server.Session.Folder.{command_cwd, command_dele, command_rnfr, command_rnto}
use ftps_server.Session.Channel.{command_port, command_auth, command_pasv}
use ftps_server.Session.Transfer.{command_list, command_stor}

-- The text up to the first zero byte, as `std::string(const char *)` reads it.
unfoldable pub c_string : Bytes → Option Bytes
c_string [] = none
c_string (c ∷ cs) = elim c [
  | ℕ.zero ↦ some []
  | ℕ.suc n ↦ elim (c_string cs) [ none ↦ none | some t ↦ some (ℕ.suc n ∷ t) ]
]

-- A message put into the buffer of 2000 bytes: what it does not cover stays, and `pull` takes no more.
abbrev pub overwrite : Bytes → Bytes → Bytes
overwrite buffer message = take 2000 (message ++ drop (length message) buffer)

module _ {E F : Type 0} where
  -- Behind the loop: the control channel is closed, and the session is over.
  unfoldable pub end_session : Machine E F → Machine E F
  end_session m =
      let (control, w) = close m.control_channel m.world in
      with_state terminated
        (record m { session = record m.session { control_channel = control }; world = w })

module _ {E F : Type 0} (net : Net E) (os : Os F) where
  -- The switch of `process_command`.
  unfoldable pub dispatch : CommandType → Command → Machine E F → Result (Machine E F)
  dispatch user c m = command_user c m
  dispatch pass c m = command_pass c m
  dispatch syst c m = command_syst c m
  dispatch pwd c m = command_pwd c m
  dispatch cwd c m = command_cwd os c m
  dispatch port c m = command_port net c m
  dispatch list c m = command_list os c m
  dispatch stor c m = command_stor os c m
  dispatch type c m = command_type c m
  dispatch feat c m = command_feat c m
  dispatch auth c m = command_auth net c m
  dispatch pbsz c m = command_pbsz c m
  dispatch prot c m = command_prot c m
  dispatch pasv c m = command_pasv net c m
  dispatch allo c m = command_allo c m
  dispatch dele c m = command_dele os c m
  dispatch rnfr c m = command_rnfr os c m
  dispatch rnto c m = command_rnto os c m
  dispatch quit c m = command_quit c m
  dispatch incomplete c m = ok (reply (codes "550 command is incomplete\r\n") m)
  dispatch site_utime c m = ok (reply (codes "202 command is not supported\r\n") m)
  dispatch unknown c m = ok (reply (codes "500 command is unknown\r\n") m)

  abbrev pub process_command : Command → Machine E F → Result (Machine E F)
  process_command c m = dispatch c.command c m

  -- A message in the buffer, as a command.
  unfoldable pub handle_buffer : Bytes → Machine E F → Result (Machine E F)
  handle_buffer buffer m = elim (c_string buffer) [
    | none ↦ err past_end
    | some line ↦ parse line >>= λ c. process_command c m
  ]

  -- The loop over what `pull` gives on the control channel; an empty message ends it.
  unfoldable pub session_loop : List Bytes → Bytes → Machine E F → Result (Machine E F)
  session_loop [] buffer m = ok m
  session_loop ([] ∷ messages) buffer m = ok m
  session_loop ((c ∷ cs) ∷ messages) buffer m =
      let rest = handle_buffer (overwrite buffer (c ∷ cs)) m >>= λ m'.
      session_loop messages (overwrite buffer (c ∷ cs)) m' in
      if is_state m.state terminated then ok m else rest

  -- `client_session_thread`, with what the buffer holds at first.
  unfoldable pub client_session_thread : List Bytes → Bytes → Machine E F → Result (Machine E F)
  client_session_thread messages buffer m =
      session_loop messages buffer (reply (codes "220 FTP server is ready\r\n") m) >>= λ m1.
      ok (end_session m1)
