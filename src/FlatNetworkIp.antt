-- ===== src/FlatNetworkIp.antt =====
-- pkg/controller/flatnetworkip: the choice of an address and of a MAC address, and the handlers of
-- FlatNetworkIP resources.
pub mod Allocate
pub mod Handlers
pub mod Remove
pub mod Choice
pub mod Mac
pub mod Recorded
pub mod Waited
pub mod Invariant
