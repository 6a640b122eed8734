-- ===== src/Session/Shared.antt =====
-- What a command does to the state that all sessions share.
use ftps_server.Base.{refl, Bool, arith, Result, ok, err, ◌>>=◌, Option-cases, inl, inr}
use ftps_server.Text.{Bytes}
use ftps_server.Command.{CommandType, Command, parse, user, pass, quit}
use ftps_server.FileSystem.Os.{Os}
use ftps_server.Net.World.{Net}
use ftps_server.Session.State.{Machine}
use ftps_server.Session.Login.{
  command_user, command_pass, command_quit, try_password, answer_login, accept_login, refuse_login,
}
use ftps_server.Session.Dispatch.{dispatch, process_command, c_string, handle_buffer}
use ftps_server.Session.Kept.{KeepsLogin, KeepsShared, dispatch-KeepsLogin}

abbrev pub SharesOn : {E F : Type 0} → Machine E F → Result (Machine E F) → Type 0
SharesOn m (ok m') = KeepsShared m m'
SharesOn m (err e) = Unit

module _ {E F : Type 0} where
  KeepsLogin-SharesOn :
      (moves : Bool) (m : Machine E F) (r : Result (Machine E F))
      → KeepsLogin moves m r
      → SharesOn m r
  KeepsLogin-SharesOn moves m (ok m') (_, _, _, shared, _) = shared
  KeepsLogin-SharesOn moves m (err e) k = tt

  command_user-KeepsShared : (c : Command) (m : Machine E F) → SharesOn m (command_user c m)
  unfolding command_user
  command_user-KeepsShared c m = ground arith

  command_pass-KeepsShared : (c : Command) (m : Machine E F) → SharesOn m (command_pass c m)
  unfolding command_pass try_password answer_login accept_login refuse_login
  command_pass-KeepsShared c m = ground arith

  command_quit-KeepsShared : (c : Command) (m : Machine E F) → SharesOn m (command_quit c m)
  unfolding command_quit
  command_quit-KeepsShared c m = ground arith

module _ {E F : Type 0} (net : Net E) (os : Os F) where
  -- Every command keeps what the sessions share.
  pub dispatch-KeepsShared :
      (t : CommandType) (c : Command) (m : Machine E F) → SharesOn m (dispatch net os t c m)
  unfolding dispatch
  dispatch-KeepsShared user c m = command_user-KeepsShared c m
  dispatch-KeepsShared pass c m = command_pass-KeepsShared c m
  dispatch-KeepsShared quit c m = command_quit-KeepsShared c m
  dispatch-KeepsShared t c m =
      KeepsLogin-SharesOn _ m (dispatch net os t c m) (dispatch-KeepsLogin net os t c m refl)

  >>=-SharesOn :
      (r : Result Command) (m : Machine E F) → SharesOn m (r >>= λ c. process_command net os c m)
  >>=-SharesOn (ok c) m = dispatch-KeepsShared c.command c m
  >>=-SharesOn (err e) m = tt

  pub handle_buffer-KeepsShared :
      (buffer : Bytes) (m : Machine E F) → SharesOn m (handle_buffer net os buffer m)
  unfolding handle_buffer
  handle_buffer-KeepsShared buffer m = elim (Option-cases (c_string buffer)) [
    | inl e ↦ rw (e, handle_buffer) tt
    | inr (line, e) ↦ rw (e, handle_buffer) (>>=-SharesOn (parse line) m)
  ]
