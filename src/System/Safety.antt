-- ===== src/System/Safety.antt =====
-- What holds of all sessions at once, however their steps and those of the server come.
use ftps_server.Base.{
  ℕ, zero, suc, ◌≡◌, ◌≢◌, ◌≤◌, refl, subst, ◌⊎◌, inl, inr, List, [], ◌∷◌, some, get_elem?, arith,
  All, Result, ok, err, Bool-cases, ◌>>=◌, ℤ,
}
use ftps_server.Text.{Bytes, is_empty}
use ftps_server.FileSystem.Os.{Os}
use ftps_server.Net.World.{Net, World}
use ftps_server.Net.Transport.{Transport}
use ftps_server.Session.State.{
  new_session, Machine, Indeterminate, terminated, auth_success, data_action, is_state,
}
use ftps_server.Session.Dispatch.{overwrite, handle_buffer, end_session}
use ftps_server.Session.Attempts.{
  IsWithin, Within, handle_buffer-Within, few_while_running, is_state-terminated,
}
use ftps_server.Server.{
  Server, Client, ClientPoint, greeting, reading, ended, ThreadPoint, binding, announcing, checking,
  accepting, server_thread, bind_address, announce, check, accept_client, Step, starts, runs, stops,
  joins, registers, unregisters,
}
use ftps_server.System.{
  System, new_system, set_at, machine_of, with_machine, read_message, session_step, next_buffer,
  RunStep, thread_runs, session_runs, session_throws, SystemStep, owner_acts, SystemReach, here,
  next,
}
use ftps_server.System as Sys

-- A session whose login and end are in order.
pub record IsSafeClient (c : Client) : Type 0 where
  pub no_success : c.state ≢ auth_success
  pub no_action : c.state ≢ data_action
  pub attempts : c.auth_attempt ≤ 4
  pub going : (c.state ≡ terminated) ⊎ (c.auth_attempt ≤ 3)
  pub stopped : (c.point ≢ ended) ⊎ (c.state ≡ terminated)

pub record IsSafe {E F : Type 0} (s : System E F) : Type 0 where
  pub clients : All IsSafeClient s.server.client_sessions

get-All :
    (P : Client → Type 0) (xs : List Client) (i : ℕ) {x : Client}
    → All P xs
    → get_elem? xs i ≡ some x
    → P x
get-All P [] i h e = cc
get-All P (y ∷ ys) zero {x} h e = let f : y ≡ x = cc in rw f at h.0
get-All P (y ∷ ys) (suc i) h e = get-All P ys i h.1 e

set_at-All :
    (P : Client → Type 0) (xs : List Client) (i : ℕ) (x : Client)
    → All P xs
    → P x
    → All P (set_at i x xs)
unfolding set_at
set_at-All P [] i x h p = tt
set_at-All P (y ∷ ys) zero x h p = (p, h.1)
set_at-All P (y ∷ ys) (suc i) x h p = (h.0, set_at-All P ys i x h.1 p)

module _ {E F : Type 0} where
  abbrev SafeStep : Bytes → Result (ClientPoint × Machine E F) → Type 0
  SafeStep b (ok (point, m)) =
      IsSafeClient (record { session = m.session; point = point; buffer = b })
  SafeStep b (err f) = Unit

  handled :
      (b : Bytes) (r : Result (Machine E F)) → Within r → SafeStep b (r >>= λ m. ok (reading, m))
  handled b (ok m) w = ground arith
  handled b (err f) w = tt

module _ {E F : Type 0} (net : Net E) (os : Os F) where
  read_message-SafeStep :
      (b message buffer : Bytes) (m : Machine E F)
      → IsWithin m
      → SafeStep b (read_message net os message buffer m)
  unfolding read_message end_session
  read_message-SafeStep b message buffer m w = elim (Bool-cases (is_state m.state terminated)) [
    | inl e ↦ rw e (ground arith)
    | inr e ↦ elim (Bool-cases (is_empty message)) [
      | inl f ↦ rw (e, f) (ground arith)
      | inr f ↦
          rw (e, f)
            (handled b (handle_buffer net os (overwrite buffer message) m) (
              handle_buffer-Within net os (overwrite buffer message) m w
                (few_while_running m w (is_state-terminated net os m.state e))))
    ]
  ]

  session_step-SafeStep :
      (c : Client) (p : ClientPoint) (b message buffer : Bytes) (s : System E F)
      (chunks : List Bytes)
      → c.point ≡ p
      → IsSafeClient c
      → SafeStep b (session_step net os p message buffer (machine_of s c.session chunks))
  unfolding session_step
  session_step-SafeStep c greeting b message buffer s chunks e h = ground arith
  session_step-SafeStep c ended b message buffer s chunks e h = ground (arith, h.stopped)
  session_step-SafeStep c reading b message buffer s chunks e h =
      read_message-SafeStep b message buffer (machine_of s c.session chunks) (ground arith)

module _ {E F : Type 0} (net : Net E) (os : Os F) where
  new-IsSafeClient :
      (control data_channel : Transport) (junk : Indeterminate) (buffer : Bytes)
      → IsSafeClient (record {
        session = new_session control data_channel junk;
        point = greeting;
        buffer = buffer;
      })
  new-IsSafeClient control data_channel junk buffer = ground arith

  server_thread-All :
      (junk : Indeterminate) (p : ThreadPoint) (t : Server E)
      → All IsSafeClient t.client_sessions
      → All IsSafeClient (server_thread net p junk t).client_sessions
  unfolding server_thread check announce accept_client bind_address
  server_thread-All junk binding t h = h
  server_thread-All junk announcing t h = h
  server_thread-All junk checking t h = h
  server_thread-All junk accepting t h = (new-IsSafeClient _ _ junk _, h)
  server_thread-All junk _ t h = h

  Step-All :
      {t u : Server E}
      → Step net t u
      → All IsSafeClient t.client_sessions
      → All IsSafeClient u.client_sessions
  Step-All {t} (runs junk e) h = rw e (server_thread-All junk t.thread t h)
  Step-All (starts n e) h = rw e h
  Step-All (stops n f e) h = rw e h
  Step-All (joins j f e) h = rw e h
  Step-All (registers o v e) h = rw e h
  Step-All (unregisters o v e) h = rw e h

  with_machine-IsSafe :
      (s : System E F) (i : ℕ) (p : ClientPoint) (b : Bytes) (m : Machine E F)
      → IsSafe s
      → SafeStep b (ok (p, m))
      → IsSafe (with_machine s i p b m)
  with_machine-IsSafe s i p b m h c = record { clients = set_at-All IsSafeClient _ i _ h.clients c }

  RunStep-IsSafe : {s t : System E F} → RunStep net os s t → IsSafe s → IsSafe t
  RunStep-IsSafe {s} (thread_runs junk n e) h =
      rw e (record { clients = server_thread-All junk s.server.thread s.server h.clients })
  RunStep-IsSafe {s} (session_runs i c message chunks p m n at_i did e) h =
      let c_safe = get-All IsSafeClient s.server.client_sessions i h.clients at_i in
      let b = next_buffer c.point message c.buffer in
      let safe =
        subst (SafeStep b) did
          (session_step-SafeStep net os c c.point b message c.buffer s chunks refl c_safe) in
      rw e (with_machine-IsSafe s i p b m h safe)
  RunStep-IsSafe (session_throws i c message chunks f n at_i did x e) h =
      rw e (record { clients = h.clients })

  SystemStep-IsSafe : {s t : System E F} → SystemStep net os s t → IsSafe s → IsSafe t
  SystemStep-IsSafe (Sys.runs r) h = RunStep-IsSafe r h
  SystemStep-IsSafe (owner_acts t n st e) h = rw e (record { clients = Step-All st h.clients })

  SystemReach-IsSafe : {s t : System E F} → IsSafe s → SystemReach net os s t → IsSafe t
  SystemReach-IsSafe h here = h
  SystemReach-IsSafe h (next r st) = SystemStep-IsSafe st (SystemReach-IsSafe h r)

  -- In whatever order the server, its owner and any number of sessions make their steps, where one
  -- step of a session is a round of its loop: every session stays out of the states behind a login,
  -- has at most four failed logins and is terminated by the fourth, and a session whose thread has
  -- ended is terminated.
  pub new_system-IsSafe :
      (address : Bytes) (port : ℤ) (w : World E) (f : F) {t : System E F}
      → SystemReach net os (new_system net address port w f) t
      → IsSafe t
  new_system-IsSafe address port w f r = SystemReach-IsSafe (record { clients = tt }) r
