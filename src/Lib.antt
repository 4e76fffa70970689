-- ===== src/Lib.antt =====
-- Verification library of the yggdrasil ecosystem modules: the xDS module, modules/xds, which
-- discovers services and their traffic policies from a control plane and balances requests over them,
-- and the discovery and balancing parts of the etcd, Kubernetes and Polaris modules.
--
-- The program's parts and the files that model them:
-- - modules/xds/internal/resource/model.go, the resources as the module uses them: Xds/Resource/Model.
-- - modules/xds/internal/resource/match.go, MatchRoute and all it calls: Xds/Resource/Match. The
--   children prove what host names are normalized to (Host), what the scores of domains mean (Domains)
--   and which virtual host and route serve a request (Laws).
-- - modules/xds/internal/resource/decode.go: Xds/Resource/Routes (listeners and route
--   configurations), Clusters (policies), Endpoints (load assignments) and Decode (a discovery response
--   as events). The messages of Envoy are the records of Xds/Resource/Envoy, with the fields that the
--   decoder reads. The events go to the resolver core below.
-- - modules/xds/internal/resolver: state.go in Xds/Resolver/State (what the resolver subscribes to and
--   what it tells an app, with Names and AppNames), ads.go in Xds/Resolver/Ads (the discovery client:
--   UpdateSubscriptions, handleResponse, the retry loop run), core.go in Xds/Resolver/Core (AddWatch,
--   DelWatch, handleDiscoveryEvent). A discovery event updates the resources, the subscriptions of the
--   discovery client and the states that the watchers are told.
-- - modules/xds/traffic/circuit_breaker.go: Xds/Traffic/Breaker; its compare-and-swap loop with other
--   threads in between is Xds/Traffic/Breaker/Threads.
-- - modules/xds/traffic/rate_limiter.go: Xds/Traffic/Limiter, a token bucket with the ticks of its
--   ticker as events.
-- - modules/xds/traffic/outlier_detector.go and outlier_analysis.go: Xds/Traffic/Outlier and its child
--   Sweep; HealthStatus is Xds/Traffic/Health.
-- - modules/xds/traffic/balancer.go: Xds/Traffic/Balancer. The objects that its maps point to live in a
--   store, so that a request under way keeps its circuit breaker when an update replaces the maps.
-- - modules/xds/traffic/balancer_picker.go: Xds/Traffic/Picker (the selections) and
--   Xds/Traffic/Call (Next and Report).
-- - modules/etcd/discovery: the records that both sides store and read in Etcd/Records, registry.go in
--   Etcd/Registry (Register with what others do while it has released its lock, Deregister and Close,
--   with the goroutines of the registrations in Etcd/Registry/Loops), resolver.go in Etcd/Resolver. What the
--   registry puts under a key is what the resolver reads (Etcd/Resolver/Registered).
-- - modules/etcd/configsource/config_source.go: Etcd/ConfigSource (a configuration tree made of the keys
--   under a prefix).
-- - The table of watchers of the etcd resolver, with the watch loops that AddWatch starts and DelWatch
--   cancels, is Discovery/Table; the Kubernetes resolver extends it.
-- - modules/k8s/discovery: resolver.go in K8s/Endpoints (the states made of Endpoints and
--   EndpointSlices) and K8s/Resolver (AddWatch, DelWatch, publishing, the watch loop, with the delays of
--   backoff.go; one call after the other). K8s/Resolver/Overlaps has the steps of calls that overlap.
-- - modules/k8s/configsource/config_source.go: K8s/ConfigSource (what a ConfigMap or a Secret is read as,
--   and what a watch of it sends).
-- - modules/polaris/traffic/balancer.go: Polaris/Picker (Next: quota, circuit breaker, routing and load
--   balancing) and Polaris/Balancer (UpdateState, Close). modules/polaris/discovery/resolver.go, whose
--   states the balancer is updated with, and what it uses of modules/polaris/internal/common:
--   Polaris/Resolver.
-- - Prelude: strings as lists of bytes, decimal numbers, association lists for Go maps, and the tests
--   and lemmas that the components share.
--
-- A Go function with state is a function from the state before to the state after and the result. The
-- machine integers are natural numbers with their wrap-around written out (u32, u64); an int32 counter
-- is its bit pattern. A loop over a Go map goes through an association list, in any order of which the
-- theorems hold. No definition runs on fuel that could run out: the loops are structural, that over the
-- priorities has the source's eleven rounds, and a decimal number has as much fuel as its value.
--
-- Parameters: the compilation and matching of package regexp, unmarshalling of a resource, json
-- encoding and decoding, sha1, the float64 arithmetic of the outlier analyses (Prelude/Floats), of
-- metadata numbers and of the backoff, the remote clients of the yggdrasil framework and whether they
-- are ready, the names that its endpoints have, the answers of etcd, Kubernetes and the Polaris SDK,
-- and what the random source draws.
--
-- Not modelled: the gRPC stream and TLS of the discovery client, logging, configuration and wiring,
-- the GetStats of the xDS balancer, the timers by which the etcd watch loop puts several events into
-- one fetch and the ticker of the Polaris watch loop, the goroutine of the etcd configuration
-- source's Watch, the clients of etcd and Kubernetes, the pause after a failed watch of a ConfigMap,
-- the client and configuration source of Polaris, the registry of Polaris, the Report of its picker
-- and the release of its quotas (calls of the SDK), the exporters of the otlp module, and the
-- examples.
pub mod Discovery
pub mod Etcd
pub mod K8s
pub mod Polaris
pub mod Prelude
pub mod Xds
