-- ===== src/Service.antt =====
-- The controllers of services and of ingresses: pkg/controller/service and pkg/controller/ingress.
pub mod Kinds
pub mod Expected
pub mod Handlers
pub mod Ingress
pub mod Settled
