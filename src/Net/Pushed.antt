-- ===== src/Net/Pushed.antt =====
-- How often the channels are written to.
use ftps_server.Base.{ℕ, ◌+◌, ◌≡◌, arith, ℤ, Result, ok, err}
use ftps_server.Text.{Bytes}
use ftps_server.Net.World.{Net, NetCall, sent, record_sent, World}
use ftps_server.Net.Tls.{
  free_tls_session, close_session, create_tls_session, handshake, new_session,
  initialize_tls_global_state,
}
use ftps_server.Net.Transport.{Transport, push, close, new_transport, from_socket, set_tls}
use ftps_server.Net.Endpoints.{Listener, connect, listener_on, bind, accept}
use ftps_server.Net.Balance.{count_of}

abbrev pushes : NetCall → ℕ
pushes (sent fd bytes) = 1
pushes (record_sent s bytes) = 1
pushes _ = 0

-- How often a channel was written to.
unfoldable pub pushed : {E : Type 0} → World E → ℕ
pushed w = count_of pushes w.calls

module _ {E : Type 0} where
  pub pushed-push :
      (t : Transport) (bytes : Bytes) (w : World E) → pushed (push t bytes w) ≡ pushed w + 1
  unfolding pushed push
  pushed-push t bytes w = ground arith

  pub pushed-close : (t : Transport) (w : World E) → pushed (close t w).1 ≡ pushed w
  unfolding pushed close close_session free_tls_session
  pushed-close t w = ground arith

module _ {E : Type 0} (net : Net E) where
  pub pushed-new_transport : (w : World E) → pushed (new_transport net w).1 ≡ pushed w
  unfolding pushed new_transport new_session initialize_tls_global_state
  pushed-new_transport w = ground arith

  pub pushed-connect :
      (t : Transport) (address : Bytes) (port : ℤ) (w : World E)
      → pushed (connect net t address port w).2 ≡ pushed w
  unfolding pushed connect
  pushed-connect t address port w = ground arith

  pub pushed-listener_on :
      (address : Bytes) (port queue : ℤ) (w : World E)
      → pushed (listener_on net address port queue w).1 ≡ pushed w
  unfolding listener_on
  pushed-listener_on address port queue w = pushed-new_transport w

  pub pushed-bind : (l : Listener) (w : World E) → pushed (bind net l w).1 ≡ pushed w
  unfolding pushed bind
  pushed-bind l w = ground arith

  pub pushed-accept :
      (l : Listener) (t : Transport) (w : World E) → pushed (accept net l t w).2 ≡ pushed w
  unfolding pushed accept from_socket new_session initialize_tls_global_state
  pushed-accept l t w = ground arith

  abbrev pub PushedOf : ℕ → Result (ℤ × Transport × World E) → Type 0
  PushedOf n (ok (r, t, w)) = pushed w ≡ n
  PushedOf n (err f) = Unit

  pub pushed-set_tls : (t : Transport) (w : World E) → PushedOf (pushed w) (set_tls net t w)
  unfolding pushed set_tls create_tls_session handshake
  pushed-set_tls t w = ground arith
