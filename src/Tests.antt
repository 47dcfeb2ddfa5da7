-- ===== src/Tests.antt =====
-- Runs at concrete inputs, and the theorems at inputs that meet their hypotheses.
mod Nodes
mod Services
mod Proxies
mod Admissions
mod Waits
mod Pages
mod Dials
mod Locks
mod Races
mod Streams
mod Logs
mod Starts
mod Distributions
mod Keepers
mod Containers
mod Settings
mod Orchestration
mod Emulation
mod Engines
mod Packets
mod Relays
mod Envoys
mod Reports
mod Images
mod Sessions
