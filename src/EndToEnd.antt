-- ===== src/EndToEnd.antt =====
-- A request through all parts: internal/client/client.go, internal/relay/quic_server.go and
-- internal/exit/tunnel.go over internal/protocol and internal/crypto.
pub mod Requests
pub mod Streams
pub mod Users
pub mod Discovery
mod Runs
