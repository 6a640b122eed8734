-- ===== src/Net/World.antt =====
-- The sockets and GnuTLS as the parameter `Net`, and the record of the calls made.
use ftps_server.Base.{ℕ, Bool, List, ◌∷◌, Option, ℤ}
use ftps_server.Text.{Bytes}

-- What the outside answers, from a state `E` of it. A `Bool` is "the call returned 0".
pub record Net (E : Type 0) : Type 0 where
  pub socket : E → ℤ × E
  pub getsockname : E → ℤ → Option (Bytes × ℕ)
  pub connect : E → ℤ → Bytes → ℕ → Bool × E
  pub bind : E → ℤ → Bytes → ℕ → Bool × E
  -- the socket of the next client, negative for a failure
  pub accept : E → ℤ → ℤ × E
  -- a new credentials, parameters or session object of GnuTLS
  pub allocate : E → ℕ × E
  -- the certificate and the key are read
  pub key_files : E → Bool
  -- the results of `gnutls_handshake`, called again and again on a session
  pub handshakes : E → Option ℕ → List ℤ × E
  pub is_fatal : ℤ → Bool
  -- `recv` and `gnutls_record_recv` with a length: the bytes put into the buffer, none for the end or
  -- an error
  pub recv : E → ℤ → ℕ → Bytes × E
  pub record_recv : E → Option ℕ → ℕ → Bytes × E

-- A call whose result the program does not read, or that gives or ends a resource.
pub data NetCall : Type 0 where
  -- what `socket` or `accept` gave, negative for a failure
  socket_given : ℤ → NetCall
  closed : ℤ → NetCall
  listened : ℤ → ℤ → NetCall
  sent : ℤ → Bytes → NetCall
  record_sent : Option ℕ → Bytes → NetCall
  global_init : NetCall
  credentials_allocated credentials_freed : ℕ → NetCall
  parameters_allocated parameters_freed : ℕ → NetCall
  session_allocated session_freed : ℕ → NetCall
  priority_allocated : ℕ → NetCall
  bye : ℕ → NetCall
  -- `notify_signal` of an observer
  signalled : ℕ → Bytes → NetCall

-- `calls` has the newest call first; `tls_initialized` is `TLS_GLOBAL_STATE_INITIALIZED`.
pub record World (E : Type 0) : Type 0 where
  pub env : E
  pub calls : List NetCall
  pub tls_initialized : Bool

abbrev pub note : {E : Type 0} → NetCall → World E → World E
note c w = record w { calls = c ∷ w.calls }
