-- ===== src/Xds/Resource.antt =====
-- modules/xds/internal/resource
pub mod Model
pub mod Envoy
pub mod Routes
pub mod Clusters
pub mod Endpoints
pub mod Decode
pub mod Match
