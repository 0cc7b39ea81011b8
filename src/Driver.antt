-- ===== src/Driver.antt =====
-- pkg/driver: the CSI node and controller services.
pub mod Backoff
pub mod Checker
pub mod Consumers
pub mod Controller
pub mod Drains
pub mod History
pub mod Orphans
pub mod Pods
pub mod Publish
pub mod Luks
pub mod Reconcile
pub mod Repair
pub mod Setup
pub mod Stage
pub mod Stranded
pub mod Unstage
