-- ===== src/Privacy/Exports.antt =====
-- The artifacts of exports: backend/app/privacy/export_artifact_lifecycle.py,
-- backend/app/privacy/repositories/export_artifacts.py and
-- backend/app/privacy/services/export_artifacts.py.
pub mod Lifecycle
pub mod Repository
pub mod Execution
pub mod Values
pub mod Service
pub mod Rewrites
pub mod Marked
pub mod Kept
pub mod Operations
pub mod Histories
pub mod Cancelled
