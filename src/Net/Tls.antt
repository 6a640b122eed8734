-- ===== src/Net/Tls.antt =====
-- src/tls_session.h, src/tls_session.cpp: the class `tls_session`. A pointer is `none` for NULL.
use ftps_server.Base.{
  ℕ, Bool, true, false, not, ◌&&◌, List, [], ◌∷◌, Option, none, some, if◌then◌else◌, ℤ, pos, Result,
  ok, err, blocked, ltb_ℤ, ◌>>=◌,
}
use ftps_server.Text.{Bytes}
use ftps_server.Status.{operation_success, operation_failure, is_success}
use ftps_server.Net.World.{
  Net, NetCall, global_init, credentials_allocated, credentials_freed, parameters_allocated,
  parameters_freed, session_allocated, priority_allocated, session_freed, bye, record_sent, World,
  note,
}

pub record TlsSession : Type 0 where
  pub dh_parameters : Option ℕ
  pub credentials : Option ℕ
  pub session : Option ℕ

abbrev pub null_session : TlsSession
null_session = record { dh_parameters = none; credentials = none; session = none }

-- The move constructor and the move assignment: the new value of the target and of the source.
-- The pointers that the target of an assignment held are overwritten.
abbrev construct_session : TlsSession → TlsSession × TlsSession
construct_session other = (
  record {
    dh_parameters = other.dh_parameters;
    credentials = other.credentials;
    session = other.session;
  },
  record { dh_parameters = none; credentials = none; session = none },
)

abbrev pub move_session : TlsSession → TlsSession × TlsSession
move_session other = (other, null_session)

-- `while (result < 0 && !fatal)`: `blocked` if every call that is listed asks for another one.
unfoldable pub handshake_loop : (ℤ → Bool) → List ℤ → Result ℤ
handshake_loop fatal [] = err blocked
handshake_loop fatal (r ∷ rs) =
    let again = handshake_loop fatal rs in if ltb_ℤ r (pos 0) && not (fatal r) then again else ok r

abbrev pub free_with : {E : Type 0} → (ℕ → NetCall) → Option ℕ → World E → World E
free_with call none w = w
free_with call (some p) w = note (call p) w

module _ {E : Type 0} where
  unfoldable pub initialize_tls_global_state : World E → World E
  initialize_tls_global_state w =
      if w.tls_initialized then w else record (note global_init w) { tls_initialized = true }

  -- The default constructor.
  unfoldable pub new_session : World E → TlsSession × World E
  unfolding initialize_tls_global_state
  new_session w = (null_session, initialize_tls_global_state w)

  unfoldable pub free_tls_session : TlsSession → World E → TlsSession × World E
  free_tls_session s w = (
    null_session,
    free_with credentials_freed s.credentials
        (free_with parameters_freed s.dh_parameters (free_with session_freed s.session w)),
  )

  -- The destructor.
  abbrev pub destroy_session : TlsSession → World E → TlsSession × World E
  destroy_session s w = free_tls_session s w

  unfoldable pub close_session : TlsSession → World E → TlsSession × World E
  unfolding free_tls_session
  close_session s w = free_tls_session s (free_with bye s.session w)

  abbrev pub push_session : TlsSession → Bytes → World E → World E
  push_session s bytes w = note (record_sent s.session bytes) w

module _ {E : Type 0} (net : Net E) where
  unfoldable pub pull_session : TlsSession → ℕ → World E → Bytes × World E
  pull_session s length w =
      let (bytes, env') = net.record_recv w.env s.session length in (bytes, record w { env = env' })

  -- A new object, kept in the log of calls.
  unfoldable pub allocate : (ℕ → NetCall) → World E → ℕ × World E
  allocate call w =
      let (p, env') = net.allocate w.env in (p, note (call p) (record w { env = env' }))

  unfoldable pub initialize_credentials : TlsSession → World E → ℤ × TlsSession × World E
  unfolding allocate
  initialize_credentials s w =
      let (p, w') = allocate credentials_allocated w in
      (
        if net.key_files w'.env then operation_success else operation_failure,
        record s { credentials = some p },
        w',
      )

  unfoldable pub initialize_dh_parameters : TlsSession → World E → ℤ × TlsSession × World E
  unfolding allocate
  initialize_dh_parameters s w =
      let (p, w') = allocate parameters_allocated w in
      (operation_success, record s { dh_parameters = some p }, w')

  -- The priority is in a local variable.
  unfoldable pub initialize_session : TlsSession → World E → ℤ × TlsSession × World E
  unfolding allocate
  initialize_session s w =
      let (p, w1) = allocate session_allocated w in
      let (priority, w2) = allocate priority_allocated w1 in
      (operation_success, record s { session = some p }, w2)

  -- `create_tls_session`: the three steps joined by `&&`; the last two cannot fail.
  unfoldable pub create_tls_session : TlsSession → World E → ℤ × TlsSession × World E
  unfolding initialize_credentials initialize_dh_parameters initialize_session
  create_tls_session s w =
      let (r, s1, w1) = initialize_credentials s w in
      let (r2, s2, w2) = initialize_dh_parameters s1 w1 in
      if is_success r
      then (if is_success r2 then initialize_session s2 w2 else (operation_failure, s2, w2))
      else (operation_failure, s1, w1)

  abbrev pub bind_session : TlsSession → World E → ℤ × TlsSession × World E
  bind_session s w = create_tls_session s w

  -- `handshake`: a fatal error ends the session object.
  unfoldable pub handshake : TlsSession → World E → Result (Bool × TlsSession × World E)
  handshake s w =
      let (results, env') = net.handshakes w.env s.session in
      let w' = record w { env = env' } in
      handshake_loop net.is_fatal results >>= λ r. ok (
        if ltb_ℤ r (pos 0)
        then (false, record s { session = none }, free_with session_freed s.session w')
        else (true, s, w'))
