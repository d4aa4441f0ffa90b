-- ===== src/LoadBalancer.antt =====
-- internal/loadbalancer/selector.go: how a Client picks one of the Relays that it found.
pub mod Weighted
pub mod Turns
pub mod Healthy
pub mod WeightedChoice
pub mod RoundRobin
pub mod Samples
mod Runs
