-- ===== src/Wrangler.antt =====
-- pkg/controller/wrangler/utils.go: the lock of a subnet that the controllers take to allocate
-- addresses.
pub mod Lock
pub mod Mutex
pub mod Exclusion
pub mod Safety
