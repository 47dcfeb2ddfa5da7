-- ===== src/Xds.antt =====
-- cmd/carisma-control-plane/app/xds: the configuration of the Envoy proxies, made from the nodes
-- and services that the registries report.
pub mod Clusters
pub mod Routes
pub mod Listeners
pub mod Snapshots
pub mod Server
