-- ===== src/Audit.antt =====
-- backend/app/audit
pub mod Json
pub mod Metadata
pub mod Events
