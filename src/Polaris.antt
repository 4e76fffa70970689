-- ===== src/Polaris.antt =====
-- modules/polaris: balancing over the instances that Polaris has discovered.
pub mod Balancer
pub mod Picker
pub mod Resolver
