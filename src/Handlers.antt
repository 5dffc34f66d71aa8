-- ===== src/Handlers.antt =====
-- internal/handlers/handlers.go: the HTTP handlers.
pub mod Names
pub mod Server
pub mod Devices
pub mod Metrics
pub mod Machines
pub mod Networks
pub mod Snapshots
pub mod Consoles
