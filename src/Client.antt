-- ===== src/Client.antt =====
-- internal/client/client.go: a Client's connection to a Relay, and its requests.
pub mod Connection
pub mod Shared
pub mod Requests
pub mod Proxy
pub mod Startup
pub mod Handlers
pub mod Life
mod Runs
