-- ===== src/Remediation.antt =====
-- Remediation: the package src/remediation/.
pub mod Models
pub mod Policy
pub mod Adapters
pub mod Dispatcher
pub mod Samples
