-- ===== src/FlatNetworkSubnet.antt =====
-- pkg/controller/flatnetworksubnet: the handlers of FlatNetworkSubnet resources.
pub mod Used
pub mod Collected
pub mod Duplicates
pub mod SelfCheck
pub mod Handlers
pub mod Failure
