-- ===== src/Xds/Traffic.antt =====
-- modules/xds/traffic
pub mod Breaker
pub mod Limiter
pub mod Balancer
pub mod Health
pub mod Outlier
pub mod Picker
pub mod Call
