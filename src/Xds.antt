-- ===== src/Xds.antt =====
-- modules/xds: the xDS resource model, the resolver and the traffic policies.
pub mod Resource
pub mod Traffic
pub mod Resolver
