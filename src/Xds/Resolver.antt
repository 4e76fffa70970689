-- ===== src/Xds/Resolver.antt =====
-- modules/xds/internal/resolver: the resolver that turns xDS resources into states for its watchers.
pub mod State
pub mod Names
pub mod AppNames
pub mod Ads
pub mod Core
mod Tests
