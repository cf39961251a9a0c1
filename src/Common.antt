-- ===== src/Common.antt =====
-- pkg/common: the checks that the webhook and the controllers share.
pub mod Subnet
pub mod Verdicts
pub mod Annotation
