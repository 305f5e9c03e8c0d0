-- ===== src/Messaging.antt =====
-- The in-memory event bus: the package src/messaging/.
pub mod Subscriber
pub mod Bus
