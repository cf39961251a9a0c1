-- ===== src/Workload.antt =====
-- pkg/controller/workload: the labels of workloads, and the addresses that a subnet reserves for
-- them.
pub mod Handlers
pub mod Reserved
pub mod Settled
