-- ===== src/Realtime.antt =====
-- The real-time event stream: the package src/realtime/.
pub mod Client
pub mod Broadcaster
