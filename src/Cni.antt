-- ===== src/Cni.antt =====
-- pkg/cni: the CNI plugin, on the kernel, the IPAM plugin and the API server as it meets them.
pub mod Macvlan
pub mod Ipvlan
pub mod Kernel
pub mod Addresses
pub mod Route
pub mod HostRoute
pub mod Config
pub mod Create
pub mod Command
pub mod Add
pub mod Attach
pub mod Del
pub mod Check
pub mod Cleanup
pub mod Unwind
pub mod Validate
pub mod Ensure
pub mod DefaultRoute
pub mod Gateway
pub mod Shown
pub mod Report
pub mod Removal
