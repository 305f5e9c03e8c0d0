-- ===== src/Ingestion.antt =====
-- The mailbox ingestion gateway (src/ingestion_gateway).
pub mod Models
pub mod Dedup
pub mod Storage
pub mod DeadLetter
pub mod Daemons
pub mod Coordinator
