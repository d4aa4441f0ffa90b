-- ===== src/Crypto.antt =====
-- internal/crypto: key configurations and Oblivious HTTP.
pub mod Interface
pub mod Keys
pub mod Ohttp
pub mod Samples
mod Runs
