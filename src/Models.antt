-- ===== src/Models.antt =====
-- The rows of the database tables: the declarative models of backend/app.
-- Identifiers (UUID) and points in time are numbers; free text is a list of ASCII code points.
pub mod User
pub mod Organisation
pub mod Membership
pub mod Invite
pub mod OutboxEvent
pub mod PlatformStaff
pub mod AuditEvent
pub mod DataSubjectRequest
pub mod ExportArtifact
