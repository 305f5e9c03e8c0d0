-- ===== src/Security.antt =====
-- Identity and access: the package src/security/.
pub mod Models
pub mod Access
pub mod Tokens
pub mod Login
