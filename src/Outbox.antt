-- ===== src/Outbox.antt =====
-- backend/app/outbox
pub mod Payloads
pub mod Repository
pub mod Workers
pub mod Rows
pub mod Queue
pub mod Delivery
pub mod Retries
