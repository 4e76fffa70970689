-- ===== src/Etcd.antt =====
-- modules/etcd: service registration and discovery, and configuration, in an etcd store.
pub mod ConfigSource
pub mod Records
pub mod Registry
pub mod Resolver
