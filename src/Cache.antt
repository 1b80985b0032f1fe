-- ===== src/Cache.antt =====
-- internal/common/caches.go: the caches of the driver.
pub mod Ttl
pub mod Lru
mod Runs
