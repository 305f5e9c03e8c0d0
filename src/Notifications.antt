-- ===== src/Notifications.antt =====
-- Notifications: the package src/notifications/.
pub mod Models
pub mod Engine
