-- ===== src/Endpoints.antt =====
-- pkg/common/endpoints.go, the endpoints of a flat-network service, and the controllers that write them.
pub mod Selection
pub mod Resources
pub mod Printed
pub mod Families
pub mod Sources
pub mod Server
pub mod Sync
pub mod SyncSlice
pub mod Kept
