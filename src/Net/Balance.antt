-- ===== src/Net/Balance.antt =====
-- The objects of GnuTLS: what a session allocates it holds, and what it holds it frees.
use ftps_server.Base.{
  ℕ, ◌+◌, ◌≡◌, Bool, List, [], ◌∷◌, if◌then◌else◌, Option, none, some, arith, ok, >>=-eq-ok,
}
use ftps_server.Net.World.{
  Net, NetCall, credentials_allocated, credentials_freed, parameters_allocated, parameters_freed,
  session_allocated, session_freed, priority_allocated, World,
}
use ftps_server.Status.{is_success}
use ftps_server.Net.Tls.{
  TlsSession, null_session, create_tls_session, handshake, handshake_loop, free_tls_session,
  close_session,
}

abbrev allocates : NetCall → ℕ
allocates (credentials_allocated p) = 1
allocates (parameters_allocated p) = 1
allocates (session_allocated p) = 1
allocates (priority_allocated p) = 1
allocates _ = 0

abbrev frees : NetCall → ℕ
frees (credentials_freed p) = 1
frees (parameters_freed p) = 1
frees (session_freed p) = 1
frees _ = 0

abbrev pub count_of : (NetCall → ℕ) → List NetCall → ℕ
count_of f [] = 0
count_of f (c ∷ cs) = f c + count_of f cs

abbrev held : Option ℕ → ℕ
held none = 0
held (some p) = 1

-- How many objects a session holds.
abbrev pub holds : TlsSession → ℕ
holds s = held s.credentials + held s.dh_parameters + held s.session

-- All objects allocated so far are freed but `n` of them.
abbrev pub Balanced : {E : Type 0} → World E → ℕ → Type 0
Balanced w n = count_of allocates w.calls ≡ count_of frees w.calls + n

module _ {E : Type 0} where
  -- `free_tls_session` frees what the session holds and nothing twice; done again it frees nothing.
  pub free_tls_session-Balanced :
      (s : TlsSession) (w : World E) (n : ℕ)
      → Balanced w (n + holds s)
      → let (s', w') = free_tls_session s w in
        (s' ≡ null_session) × Balanced w' n × (free_tls_session s' w' ≡ (s', w'))
  unfolding free_tls_session
  free_tls_session-Balanced s w n b = ground arith

  close_session-Balanced :
      (s : TlsSession) (w : World E) (n : ℕ)
      → Balanced w (n + holds s)
      → Balanced (close_session s w).1 n
  unfolding close_session
  close_session-Balanced s w n b = ground arith

module _ {E : Type 0} (net : Net E) where
  -- A session that holds nothing holds all that its creation allocates, also where it fails, but for
  -- one object where it succeeds: nothing holds the priority, so it is never freed.
  pub create_tls_session-Balanced :
      (w : World E) (n : ℕ)
      → Balanced w n
      → let (r, s, w') = create_tls_session net null_session w in
        Balanced w' (n + holds s + (if is_success r then 1 else 0))
  unfolding create_tls_session
  create_tls_session-Balanced w n b = ground arith

  -- A handshake keeps the account: the session object that it gives up after a fatal error is freed.
  pub handshake-Balanced :
      (s : TlsSession) (w : World E) (n : ℕ) {b : Bool} {s' : TlsSession} {w' : World E}
      → Balanced w (n + holds s)
      → handshake net s w ≡ ok (b, s', w')
      → Balanced w' (n + holds s')
  unfolding handshake
  handshake-Balanced s w n h e =
      ground (arith, >>=-eq-ok (handshake_loop net.is_fatal (net.handshakes w.env s.session).0) _ e)
