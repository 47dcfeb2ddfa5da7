-- ===== src/Config.antt =====
-- pkg/config: the settings of a node and the deployment configurations that the nodes exchange.
pub mod Deployment
pub mod Settings
pub mod Bootstrap
