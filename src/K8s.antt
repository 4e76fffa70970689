-- ===== src/K8s.antt =====
-- modules/k8s: service discovery from the endpoints and endpoint slices of a Kubernetes cluster, and
-- configuration from its ConfigMaps and Secrets.
pub mod ConfigSource
pub mod Endpoints
pub mod Resolver
