-- ===== src/Dht.antt =====
-- internal/dht: how a node finds the first peers of the DHT.
pub mod Bootstrap
pub mod Discovery
pub mod Provider
pub mod Node
pub mod Service
mod Runs
