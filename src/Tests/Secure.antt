-- ===== src/Tests/Secure.antt =====
-- TLS on a channel, once and again.
use ftps_server.Base.{ℕ, ◌+◌, ◌≡◌, ◌≤◌, refl, true, [], ◌∷◌, some, pos, arith, ok}
use ftps_server.Text.{Bytes}
use ftps_server.Net.World.{
  World, credentials_allocated, parameters_allocated, session_allocated, priority_allocated,
}
use ftps_server.Net.Tls.{create_tls_session, handshake, handshake_loop}
use ftps_server.Net.Transport.{Transport, set_tls, close, destroy_transport}
use ftps_server.Net.Balance.{Balanced}
use ftps_server.Net.Lifecycle.{LoadsKeys, EndsHandshakes, set_tls-destroyed}
use ftps_server.Session.State.{Machine}
use ftps_server.Session.Dispatch.{client_session_thread}
use ftps_server.Session.Auth.{auth_lines, client_session_thread-loses}
use ftps_server.Tests.Samples.{Files, sample, sample_net, sample_os, sample_transport, sample_world}

abbrev secured : Transport
secured = record (sample_transport 5) {
  session = record { dh_parameters = some 11; credentials = some 10; session = some 12 };
  secure = true;
}

abbrev behind_handshake : World ℕ
behind_handshake = record {
  env = 14;
  calls =
      priority_allocated 13
      ∷ session_allocated 12
      ∷ parameters_allocated 11
      ∷ credentials_allocated 10
      ∷ [];
  tls_initialized = true;
}

set_tls-destroyed_example :
    let (t1, w1) = close secured behind_handshake in
    let (t2, w2) = close t1 w1 in
    Balanced (destroy_transport secured behind_handshake).1 1
    × Balanced (destroy_transport t1 w1).1 1
    × Balanced (destroy_transport t2 w2).1 1
unfolding set_tls create_tls_session handshake handshake_loop
set_tls-destroyed_example =
    set_tls-destroyed sample_net (sample_transport 5) sample_world 0 refl refl refl

keys : LoadsKeys sample_net
keys env = refl

ends : EndsHandshakes sample_net
unfolding handshake_loop
ends env s = (pos 0, refl)

abbrev buffer : Bytes
buffer = 1 ∷ 1 ∷ 1 ∷ 1 ∷ 1 ∷ 1 ∷ 1 ∷ 1 ∷ 1 ∷ 1 ∷ 0 ∷ []

client_session_thread-loses_example :
    (m' : Machine ℕ Files) × (lost : ℕ) × (client_session_thread sample_net sample_os
        (auth_lines 3)
        buffer
        sample
      ≡ ok m')
    × Balanced (destroy_transport m'.control_channel m'.world).1 (0 + lost)
    × (7 ≤ lost)
    × (lost ≤ 9)
client_session_thread-loses_example =
    client_session_thread-loses sample_net keys ends sample_os 2 10 0 buffer sample (omega arith)
      (tt, omega arith) refl refl refl
