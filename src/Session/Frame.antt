-- ===== src/Session/Frame.antt =====
-- What a handler leaves alone: only USER, PASS and QUIT touch the login, and no other handler reads
-- the state of the login.
use ftps_server.Base.{◌≡◌, refl, Bool, true, false, arith, Result, ok, err}
use ftps_server.Text.{Bytes}
use ftps_server.Command.{
  CommandType, Command, user, pass, cwd, port, list, stor, type, quit, auth, pbsz, prot, pasv, allo,
  dele, rnfr, rnto,
}
use ftps_server.FileSystem.Os.{Os}
use ftps_server.Net.World.{Net}
use ftps_server.Session.State.{SessionState, Machine, with_state}
use ftps_server.Session.Settings.{
  command_syst, command_pwd, command_type, command_feat, command_pbsz, command_prot, command_allo,
}
use ftps_server.Session.Folder.{
  requested_folder, file_to_erase, command_cwd, command_dele, command_rnfr, command_rnto,
}
use ftps_server.Session.Channel.{
  Allocation, secure_data, enter_passive, answer_passive, with_allocation, search_port,
  command_port, command_auth, command_pasv,
}
use ftps_server.Session.Transfer.{command_list, command_stor}
use ftps_server.Session.Dispatch.{dispatch}

-- The two outcomes are the same but for the state of the login, which is `s` in the second.
abbrev pub in_state : {E F : Type 0} → SessionState → Result (Machine E F) → Result (Machine E F)
in_state s (ok m) = ok (with_state s m)
in_state s (err e) = err e

-- Commands that change the login.
abbrev pub is_login : CommandType → Bool
is_login user = true
is_login pass = true
is_login quit = true
is_login _ = false

module _ {E F : Type 0} (net : Net E) (s : SessionState) where
  secure_data-in_state :
      (m : Machine E F) → secure_data net (with_state s m) ≡ in_state s (secure_data net m)
  unfolding secure_data
  secure_data-in_state m = ground arith

  enter_passive-in_state :
      (address : Bytes) (a : Allocation E) (m : Machine E F)
      → enter_passive net address a (with_state s m) ≡ in_state s (enter_passive net address a m)
  unfolding enter_passive secure_data
  enter_passive-in_state address a m = ground arith

  answer_passive-in_state :
      (b : Bool) (a : Allocation E) (m : Machine E F)
      → answer_passive net b a (with_state s m) ≡ in_state s (answer_passive net b a m)
  unfolding answer_passive
  answer_passive-in_state false a m = refl
  answer_passive-in_state true a m = enter_passive-in_state m.control_channel.address a m

  command_pasv-in_state :
      (c : Command) (m : Machine E F)
      → command_pasv net c (with_state s m) ≡ in_state s (command_pasv net c m)
  unfolding command_pasv search_port
  command_pasv-in_state c m =
      let a = search_port net m in answer_passive-in_state a.bound a (with_allocation net a m)

  command_port-in_state :
      (c : Command) (m : Machine E F)
      → command_port net c (with_state s m) ≡ in_state s (command_port net c m)
  unfolding command_port
  command_port-in_state c m = ground arith

  command_auth-in_state :
      (c : Command) (m : Machine E F)
      → command_auth net c (with_state s m) ≡ in_state s (command_auth net c m)
  unfolding command_auth
  command_auth-in_state c m = ground arith

module _ {E F : Type 0} (os : Os F) (s : SessionState) (c : Command) (m : Machine E F) where
  command_cwd-in_state : command_cwd os c (with_state s m) ≡ in_state s (command_cwd os c m)
  unfolding command_cwd requested_folder
  command_cwd-in_state = ground arith

  command_dele-in_state : command_dele os c (with_state s m) ≡ in_state s (command_dele os c m)
  unfolding command_dele file_to_erase
  command_dele-in_state = ground arith

  command_rnfr-in_state : command_rnfr os c (with_state s m) ≡ in_state s (command_rnfr os c m)
  unfolding command_rnfr
  command_rnfr-in_state = ground arith

  command_rnto-in_state : command_rnto os c (with_state s m) ≡ in_state s (command_rnto os c m)
  unfolding command_rnto
  command_rnto-in_state = ground arith

  command_list-in_state : command_list os c (with_state s m) ≡ in_state s (command_list os c m)
  unfolding command_list
  command_list-in_state = refl

  command_stor-in_state : command_stor os c (with_state s m) ≡ in_state s (command_stor os c m)
  unfolding command_stor
  command_stor-in_state = ground arith

module _ {E F : Type 0} (s : SessionState) (c : Command) (m : Machine E F) where
  command_type-in_state : command_type c (with_state s m) ≡ in_state s (command_type c m)
  unfolding command_type
  command_type-in_state = ground arith

  command_pbsz-in_state : command_pbsz c (with_state s m) ≡ in_state s (command_pbsz c m)
  unfolding command_pbsz
  command_pbsz-in_state = ground arith

  command_prot-in_state : command_prot c (with_state s m) ≡ in_state s (command_prot c m)
  unfolding command_prot
  command_prot-in_state = ground arith

  command_allo-in_state : command_allo c (with_state s m) ≡ in_state s (command_allo c m)
  unfolding command_allo
  command_allo-in_state = ground arith

module _ {E F : Type 0} (net : Net E) (os : Os F) where
  -- A command other than USER, PASS and QUIT does the same in every state of the login, and leaves
  -- that state as it is: a client that has not logged in has the whole server at its service.
  pub dispatch-in_state :
      (t : CommandType) (s : SessionState) (c : Command) (m : Machine E F)
      → is_login t ≡ false
      → dispatch net os t c (with_state s m) ≡ in_state s (dispatch net os t c m)
  unfolding dispatch command_syst command_pwd command_feat
  dispatch-in_state user s c m h = cc
  dispatch-in_state pass s c m h = cc
  dispatch-in_state quit s c m h = cc
  dispatch-in_state cwd s c m h = command_cwd-in_state os s c m
  dispatch-in_state port s c m h = command_port-in_state net s c m
  dispatch-in_state list s c m h = command_list-in_state os s c m
  dispatch-in_state stor s c m h = command_stor-in_state os s c m
  dispatch-in_state type s c m h = command_type-in_state s c m
  dispatch-in_state auth s c m h = command_auth-in_state net s c m
  dispatch-in_state pbsz s c m h = command_pbsz-in_state s c m
  dispatch-in_state prot s c m h = command_prot-in_state s c m
  dispatch-in_state pasv s c m h = command_pasv-in_state net s c m
  dispatch-in_state allo s c m h = command_allo-in_state s c m
  dispatch-in_state dele s c m h = command_dele-in_state os s c m
  dispatch-in_state rnfr s c m h = command_rnfr-in_state os s c m
  dispatch-in_state rnto s c m h = command_rnto-in_state os s c m
  dispatch-in_state _ s c m h = refl
