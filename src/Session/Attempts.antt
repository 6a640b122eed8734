-- ===== src/Session/Attempts.antt =====
-- The login along a session: which handlers touch it, its states and the count of failed attempts.
use ftps_server.Base.{
  ◌≡◌, ◌≢◌, ◌≤◌, ◌⊎◌, List, [], ◌∷◌, ℤ, refl, subst, inl, inr, Bool, false, arith, Result, ok, err,
  ◌>>=◌, Bool-cases, Option-cases,
}
use ftps_server.Text.{Bytes}
use ftps_server.Command.{parse, CommandType, Command, get_argument, user, pass, quit}
use ftps_server.User.{User}
use ftps_server.FileSystem.Os.{Os}
use ftps_server.Net.World.{Net}
use ftps_server.Session.State.{
  wait_password, auth_success, data_action, terminated, is_state, SessionState, Machine, reply,
  update,
}
use ftps_server.Session.Login.{
  refuse_login, accept_login, answer_login, try_password, command_user, command_pass, command_quit,
}
use ftps_server.Session.Dispatch.{dispatch, handle_buffer, session_loop, overwrite, c_string}
use ftps_server.Session.Kept.{KeepsLogin, dispatch-KeepsLogin}

-- The states that a session is ever in, and at most three failed logins before the one that ends it.
pub record IsWithin {E F : Type 0} (m : Machine E F) : Type 0 where
  pub no_success : m.state ≢ auth_success
  pub no_action : m.state ≢ data_action
  pub attempts : m.auth_attempt ≤ 4
  pub running : (m.state ≡ terminated) ⊎ (m.auth_attempt ≤ 3)

module _ {E F : Type 0} where
  abbrev pub Within : Result (Machine E F) → Type 0
  Within (ok m) = IsWithin m
  Within (err e) = Unit

  module _ (c : Command) (m : Machine E F) (w : IsWithin m) (few : m.auth_attempt ≤ 3) where
    command_user-Within : Within (command_user c m)
    unfolding command_user
    command_user-Within = ground arith

    command_quit-Within : Within (command_quit c m)
    unfolding command_quit
    command_quit-Within = ground arith

  pub few_while_running : (m : Machine E F) → IsWithin m → m.state ≢ terminated → m.auth_attempt ≤ 3
  few_while_running m w live = ground (arith, w.running)

  refuse_login-IsWithin : (m : Machine E F) → m.auth_attempt ≤ 3 → IsWithin (refuse_login m)
  unfolding refuse_login
  refuse_login-IsWithin m h = ground arith

  accept_login-IsWithin :
      (m : Machine E F)
      → m.state ≢ auth_success
      → m.state ≢ data_action
      → m.auth_attempt ≤ 3
      → IsWithin (accept_login m)
  unfolding accept_login
  accept_login-IsWithin m s d h = ground arith

  answer_login-IsWithin :
      (r : ℤ × User) (m : Machine E F)
      → m.state ≢ auth_success
      → m.state ≢ data_action
      → m.auth_attempt ≤ 3
      → IsWithin (answer_login r m)
  unfolding answer_login
  answer_login-IsWithin (result, user') m s d h =
      let m1 = update (λ x. record x { user = user' }) m in
      ground (arith, accept_login-IsWithin m1 s d h, refuse_login-IsWithin m1 h)

  try_password-IsWithin :
      (password : Bytes) (m : Machine E F)
      → m.state ≢ auth_success
      → m.state ≢ data_action
      → m.auth_attempt ≤ 3
      → IsWithin (try_password password m)
  unfolding try_password
  try_password-IsWithin password m s d h = answer_login-IsWithin _ _ s d h

  >>=-Within :
      {A : Type 0} (r : Result A) (f : A → Result (Machine E F))
      → ((a : A) → Within (f a))
      → Within (r >>= f)
  >>=-Within (ok a) f h = h a
  >>=-Within (err e) f h = tt

  command_pass-Within :
      (c : Command) (m : Machine E F) → IsWithin m → m.auth_attempt ≤ 3 → Within (command_pass c m)
  unfolding command_pass
  command_pass-Within c m w h = >>=-Within (get_argument c 0) _ λ password.
      elim (Bool-cases (is_state m.state wait_password)) [
        | inl e ↦ rw e (try_password-IsWithin password m w.no_success w.no_action h)
        | inr e ↦ rw e (try_password-IsWithin password (reply _ m) w.no_success w.no_action h)
      ]

  then-Within :
      (r : Result (Machine E F)) (f : Machine E F → Result (Machine E F))
      → Within r
      → ((m : Machine E F) → IsWithin m → Within (f m))
      → Within (r >>= f)
  then-Within (ok m) f w h = h m w
  then-Within (err e) f w h = tt

  Kept-Within :
      (moves : Bool) (m : Machine E F) (r : Result (Machine E F))
      → IsWithin m
      → m.auth_attempt ≤ 3
      → KeepsLogin moves m r
      → Within r
  Kept-Within moves m (ok m') w h k = ground arith
  Kept-Within moves m (err e) w h k = tt

module _ {E F : Type 0} (net : Net E) (os : Os F) where
  dispatch-Within :
      (t : CommandType) (c : Command) (m : Machine E F)
      → IsWithin m
      → m.auth_attempt ≤ 3
      → Within (dispatch net os t c m)
  unfolding dispatch
  dispatch-Within user c m w h = command_user-Within c m w h
  dispatch-Within pass c m w h = command_pass-Within c m w h
  dispatch-Within quit c m w h = command_quit-Within c m w h
  dispatch-Within t c m w h =
      Kept-Within _ m (dispatch net os t c m) w h (dispatch-KeepsLogin net os t c m refl)

  -- A command in a session that goes on keeps its state and its count of failed logins within
  -- bounds: at most three failures while it goes on, at most four in all, and never the states
  -- AUTH_SUCCESS and DATA_ACTION.
  pub dispatch-IsWithin :
      (t : CommandType) (c : Command) (m : Machine E F) {m' : Machine E F}
      → IsWithin m
      → m.state ≢ terminated
      → dispatch net os t c m ≡ ok m'
      → IsWithin m'
  dispatch-IsWithin t c m w live e =
      subst Within e (dispatch-Within t c m w (few_while_running m w live))

  pub handle_buffer-Within :
      (buffer : Bytes) (m : Machine E F)
      → IsWithin m
      → m.auth_attempt ≤ 3
      → Within (handle_buffer net os buffer m)
  unfolding handle_buffer
  handle_buffer-Within buffer m w h = elim (Option-cases (c_string buffer)) [
    | inl e ↦ rw (e, handle_buffer) tt
    | inr (line, e) ↦
        rw (e, handle_buffer) (>>=-Within (parse line) _ λ c. dispatch-Within c.command c m w h)
  ]

  pub is_state-terminated : (s : SessionState) → is_state s terminated ≡ false → s ≢ terminated
  unfolding is_state
  is_state-terminated s h = ground arith

  session_loop-Within :
      (messages : List Bytes) (buffer : Bytes) (m : Machine E F)
      → IsWithin m
      → Within (session_loop net os messages buffer m)
  unfolding session_loop
  session_loop-Within [] buffer m w = w
  session_loop-Within ([] ∷ messages) buffer m w = w
  session_loop-Within ((c ∷ cs) ∷ messages) buffer m w =
      elim (Bool-cases (is_state m.state terminated)) [
        | inl e ↦ rw e w
        | inr e ↦
            let few = few_while_running m w (is_state-terminated m.state e) in
            let full = overwrite buffer (c ∷ cs) in
            rw e (
              then-Within (handle_buffer net os full m) (session_loop net os messages full)
                (handle_buffer-Within full m w few) (session_loop-Within messages full))
      ]

  -- A session that starts its loop with at most three failed logins, or terminated with four, and in
  -- no state behind a login ends it so, whatever the client sends: the fourth failure ends it.
  pub session_loop-IsWithin :
      (messages : List Bytes) (buffer : Bytes) (m : Machine E F) {m' : Machine E F}
      → IsWithin m
      → session_loop net os messages buffer m ≡ ok m'
      → IsWithin m'
  session_loop-IsWithin messages buffer m w e =
      subst Within e (session_loop-Within messages buffer m w)
