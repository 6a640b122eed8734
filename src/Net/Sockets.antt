-- ===== src/Net/Sockets.antt =====
-- How many sockets are opened and closed.
use ftps_server.Base.{
  if◌then◌else◌, false, ℕ, ◌+◌, ◌≡◌, ◌≤◌, arith, ℤ, pos, ltb_ℤ, Bool-cases, inl, inr, Result, ok,
  err,
}
use ftps_server.Text.{Bytes}
use ftps_server.Net.World.{Net, NetCall, socket_given, closed, World}
use ftps_server.Net.Tls.{
  free_tls_session, close_session, create_tls_session, handshake, new_session,
  initialize_tls_global_state,
}
use ftps_server.Net.Transport.{Transport, push, close, new_transport, from_socket, set_tls}
use ftps_server.Net.Endpoints.{Listener, listener_on, bind, accept}
use ftps_server.Net.Balance.{count_of}

abbrev opens : NetCall → ℕ
opens (socket_given fd) = if ltb_ℤ fd (pos 0) then 0 else 1
opens _ = 0

abbrev closes : NetCall → ℕ
closes (closed fd) = 1
closes _ = 0

-- The sockets socket_given, and the calls of `close`, so far.
unfoldable pub sockets_opened : {E : Type 0} → World E → ℕ
sockets_opened w = count_of opens w.calls

unfoldable pub sockets_closed : {E : Type 0} → World E → ℕ
sockets_closed w = count_of closes w.calls

-- From a world to another one, so many are opened and so many closed.
abbrev pub Uses : {E : Type 0} → World E → World E → ℕ → ℕ → Type 0
Uses w w' o c =
    (sockets_opened w' ≡ sockets_opened w + o) × (sockets_closed w' ≡ sockets_closed w + c)

module _ {E : Type 0} where
  pub push-Uses : (t : Transport) (bytes : Bytes) (w : World E) → Uses w (push t bytes w) 0 0
  unfolding sockets_opened sockets_closed push
  push-Uses t bytes w = ground arith

  pub close-Uses : (t : Transport) (w : World E) → Uses w (close t w).1 0 1
  unfolding sockets_opened sockets_closed close close_session free_tls_session
  close-Uses t w = ground arith

module _ {E : Type 0} (net : Net E) where
  -- `socket` does not fail.
  abbrev pub GivesSockets : Type 0
  GivesSockets = (env : E) → ltb_ℤ (net.socket env).0 (pos 0) ≡ false

  pub new_transport-Uses : GivesSockets → (w : World E) → Uses w (new_transport net w).1 1 0
  unfolding sockets_opened sockets_closed new_transport new_session initialize_tls_global_state
  new_transport-Uses gives w = ground (arith, gives w.env)

  pub listener_on-Uses :
      GivesSockets
      → (address : Bytes) (port queue : ℤ) (w : World E)
      → Uses w (listener_on net address port queue w).1 1 0
  unfolding listener_on
  listener_on-Uses gives address port queue w = new_transport-Uses gives w

  pub bind-Uses : (l : Listener) (w : World E) → Uses w (bind net l w).1 0 0
  unfolding sockets_opened sockets_closed bind
  bind-Uses l w = ground arith

  pub accept-Uses :
      (l : Listener) (t : Transport) (w : World E)
      → (n : ℕ) × (n ≤ 1) × Uses w (accept net l t w).2 n 0
  unfolding sockets_opened sockets_closed accept from_socket new_session initialize_tls_global_state
  accept-Uses l t w = elim (Bool-cases (ltb_ℤ (net.accept w.env l.socket).0 (pos 0))) [
    | inl e ↦ (0, omega arith, rw (e, accept) (ground arith))
    | inr e ↦ (1, omega arith, rw (e, accept) (ground arith))
  ]

  abbrev pub UsesOf : World E → ℕ → ℕ → Result (ℤ × Transport × World E) → Type 0
  UsesOf w o c (ok (r, t, w')) = Uses w w' o c
  UsesOf w o c (err f) = Unit

  pub set_tls-Uses : (t : Transport) (w : World E) → UsesOf w 0 0 (set_tls net t w)
  unfolding sockets_opened sockets_closed set_tls create_tls_session handshake
  set_tls-Uses t w = ground arith
