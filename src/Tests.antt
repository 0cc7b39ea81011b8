-- ===== src/Tests.antt =====
-- Concrete inputs for the theorems.
pub mod Names
pub mod Caches
pub mod Credentials
pub mod Devices
pub mod Hosts
pub mod Nodes
pub mod Recoveries
pub mod Repairs
