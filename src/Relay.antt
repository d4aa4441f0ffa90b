-- ===== src/Relay.antt =====
-- internal/relay: the node that Clients and Exits connect to, and that forwards without reading.
pub mod Registry
pub mod Node
pub mod Server
pub mod Sessions
mod Runs
