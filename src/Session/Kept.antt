-- ===== src/Session/Kept.antt =====
-- The handlers other than USER, PASS and QUIT keep the login.
use ftps_server.Base.{◌≤◌, ◌≡◌, refl, ◌⊎◌, inr, Bool, true, false, arith, Result, ok, err}
use ftps_server.Command.{
  CommandType, Command, user, pass, cwd, port, list, stor, type, quit, auth, pbsz, prot, pasv, allo,
  dele, rnfr, rnto,
}
use ftps_server.FileSystem.Os.{Os}
use ftps_server.Net.World.{Net}
use ftps_server.Session.State.{Machine}
use ftps_server.Session.Settings.{
  command_syst, command_pwd, command_type, command_feat, command_pbsz, command_prot, command_allo,
}
use ftps_server.Session.Folder.{command_cwd, command_dele, command_rnfr, command_rnto}
use ftps_server.Session.Channel.{
  Allocation, secure_data, enter_passive, answer_passive, with_allocation, search_port,
  command_port, command_auth, command_pasv,
}
use ftps_server.Session.Passive.{search_port-IsSearched}
use ftps_server.Session.Transfer.{command_list, command_stor}
use ftps_server.Session.Dispatch.{dispatch}
use ftps_server.Session.Frame.{is_login}

-- The one command that moves to another folder.
abbrev pub is_cwd : CommandType → Bool
is_cwd cwd = true
is_cwd _ = false

-- The accounts and the observers stay, and the counter of ports does not go back.
abbrev pub KeepsShared : {E F : Type 0} → Machine E F → Machine E F → Type 0
KeepsShared m m' = (m'.users ≡ m.users) × (m'.notifier ≡ m.notifier) × (m.data_port ≤ m'.data_port)

-- The account, the count of failed logins and what all sessions share are kept, and the current folder
-- too unless the command moves.
abbrev pub KeepsLogin : {E F : Type 0} → Bool → Machine E F → Result (Machine E F) → Type 0
KeepsLogin moves m (ok m') =
    (m'.user ≡ m.user)
    × (m'.auth_attempt ≡ m.auth_attempt)
    × (m'.state ≡ m.state)
    × KeepsShared m m'
    × ((moves ≡ true) ⊎ (m'.folder ≡ m.folder))
KeepsLogin moves m (err e) = Unit

module _ {E F : Type 0} (net : Net E) where
  secure_data-KeepsLogin : (m : Machine E F) → KeepsLogin false m (secure_data net m)
  unfolding secure_data
  secure_data-KeepsLogin m = ground arith

  answer_passive-KeepsLogin :
      (b : Bool) (a : Allocation E) (m : Machine E F)
      → KeepsLogin false m (answer_passive net b a m)
  unfolding answer_passive enter_passive secure_data
  answer_passive-KeepsLogin false a m = (refl, refl, refl, (refl, refl, omega arith), inr refl)
  answer_passive-KeepsLogin true a m = ground arith

  with_allocation-KeepsLogin :
      (a : Allocation E) (m : Machine E F) (r : Result (Machine E F))
      → m.data_port ≤ a.next_port
      → KeepsLogin false (with_allocation net a m) r
      → KeepsLogin false m r
  with_allocation-KeepsLogin a m (ok m') up (u, n, s, (db, o, more), f) =
      (u, n, s, (db, o, omega arith), f)
  with_allocation-KeepsLogin a m (err e) up k = tt

  command_pasv-KeepsLogin :
      (c : Command) (m : Machine E F) → KeepsLogin false m (command_pasv net c m)
  unfolding command_pasv
  command_pasv-KeepsLogin c m =
      let a = search_port net m in
      let searched = search_port-IsSearched net m in
      with_allocation-KeepsLogin a m (answer_passive net a.bound a (with_allocation net a m))
        (omega (arith, searched.in_order, searched.from_first))
        (answer_passive-KeepsLogin a.bound a (with_allocation net a m))

module _ {E F : Type 0} (net : Net E) (c : Command) (m : Machine E F) where
  command_port-KeepsLogin : KeepsLogin false m (command_port net c m)
  unfolding command_port
  command_port-KeepsLogin = ground arith

  command_auth-KeepsLogin : KeepsLogin false m (command_auth net c m)
  unfolding command_auth
  command_auth-KeepsLogin = ground arith

module _ {E F : Type 0} (os : Os F) (c : Command) (m : Machine E F) where
  command_cwd-KeepsLogin : KeepsLogin true m (command_cwd os c m)
  unfolding command_cwd
  command_cwd-KeepsLogin = ground arith

  command_dele-KeepsLogin : KeepsLogin false m (command_dele os c m)
  unfolding command_dele
  command_dele-KeepsLogin = ground arith

  command_rnfr-KeepsLogin : KeepsLogin false m (command_rnfr os c m)
  unfolding command_rnfr
  command_rnfr-KeepsLogin = ground arith

  command_rnto-KeepsLogin : KeepsLogin false m (command_rnto os c m)
  unfolding command_rnto
  command_rnto-KeepsLogin = ground arith

  command_list-KeepsLogin : KeepsLogin false m (command_list os c m)
  unfolding command_list
  command_list-KeepsLogin = ground arith

  command_stor-KeepsLogin : KeepsLogin false m (command_stor os c m)
  unfolding command_stor
  command_stor-KeepsLogin = ground arith

module _ {E F : Type 0} (c : Command) (m : Machine E F) where
  command_type-KeepsLogin : KeepsLogin false m (command_type c m)
  unfolding command_type
  command_type-KeepsLogin = ground arith

  command_pbsz-KeepsLogin : KeepsLogin false m (command_pbsz c m)
  unfolding command_pbsz
  command_pbsz-KeepsLogin = ground arith

  command_prot-KeepsLogin : KeepsLogin false m (command_prot c m)
  unfolding command_prot
  command_prot-KeepsLogin = ground arith

  command_allo-KeepsLogin : KeepsLogin false m (command_allo c m)
  unfolding command_allo
  command_allo-KeepsLogin = ground arith

module _ {E F : Type 0} (net : Net E) (os : Os F) where
  pub dispatch-KeepsLogin :
      (t : CommandType) (c : Command) (m : Machine E F)
      → is_login t ≡ false
      → KeepsLogin (is_cwd t) m (dispatch net os t c m)
  unfolding dispatch command_syst command_pwd command_feat
  dispatch-KeepsLogin user c m h = cc
  dispatch-KeepsLogin pass c m h = cc
  dispatch-KeepsLogin quit c m h = cc
  dispatch-KeepsLogin cwd c m h = command_cwd-KeepsLogin os c m
  dispatch-KeepsLogin port c m h = command_port-KeepsLogin net c m
  dispatch-KeepsLogin list c m h = command_list-KeepsLogin os c m
  dispatch-KeepsLogin stor c m h = command_stor-KeepsLogin os c m
  dispatch-KeepsLogin type c m h = command_type-KeepsLogin c m
  dispatch-KeepsLogin auth c m h = command_auth-KeepsLogin net c m
  dispatch-KeepsLogin pbsz c m h = command_pbsz-KeepsLogin c m
  dispatch-KeepsLogin prot c m h = command_prot-KeepsLogin c m
  dispatch-KeepsLogin pasv c m h = command_pasv-KeepsLogin net c m
  dispatch-KeepsLogin allo c m h = command_allo-KeepsLogin c m
  dispatch-KeepsLogin dele c m h = command_dele-KeepsLogin os c m
  dispatch-KeepsLogin rnfr c m h = command_rnfr-KeepsLogin os c m
  dispatch-KeepsLogin rnto c m h = command_rnto-KeepsLogin os c m
  dispatch-KeepsLogin _ c m h = (refl, refl, refl, (refl, refl, omega arith), inr refl)
