-- ===== src/Exit.antt =====
-- internal/exit: the Exit node, which opens requests, asks its AI backend and seals the answers.
pub mod Events
pub mod Backend
pub mod Handler
pub mod Tunnel
pub mod Node
pub mod Samples
mod Runs
