-- ===== src/Platform.antt =====
-- backend/app/platform and backend/app/core/platform
pub mod Permissions
pub mod Repository
pub mod Access
pub mod Staff
pub mod Users
pub mod Organisations
pub mod Stopped
pub mod Histories
pub mod Suspended
