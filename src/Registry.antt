-- ===== src/Registry.antt =====
-- pkg/registry: the registry of nodes and the registry of the services that run on them.
pub mod Node
pub mod Service
