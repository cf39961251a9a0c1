-- ===== src/Webhook.antt =====
-- pkg/admission/webhook: the admission of workloads and subnets.
pub mod Workload
pub mod Subnet
pub mod Checks
