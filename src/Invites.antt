-- ===== src/Invites.antt =====
-- backend/app/invites
pub mod Repository
pub mod Checks
pub mod Service
pub mod Acceptance
