-- ===== src/Privacy.antt =====
-- backend/app/privacy
pub mod Requests
pub mod Exports
