-- ===== src/Rclone.antt =====
-- pkg/rclone: the mount and cache side of the driver.
pub mod CacheDir
pub mod Config
pub mod Drain
pub mod Eviction
pub mod Exclusive
pub mod Exposure
pub mod Sweep
pub mod Mounting
pub mod Mounts
pub mod Options
pub mod Redact
pub mod Rpc
pub mod Session
pub mod Units
pub mod VfsName
