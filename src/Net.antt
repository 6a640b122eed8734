-- ===== src/Net.antt =====
-- The network below the server: the system's sockets and GnuTLS as a parameter, and the three
-- classes on them, src/tls_session.cpp, src/tcp_transport.cpp, src/tcp_client.cpp and
-- src/tcp_listener.cpp.
pub mod World
pub mod Tls
pub mod Transport
pub mod Endpoints
pub mod Balance
pub mod Lifecycle
pub mod Handshake
pub mod Pushed
pub mod Sockets
