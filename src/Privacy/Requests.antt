-- ===== src/Privacy/Requests.antt =====
-- The decisions on data-subject requests, from
-- backend/app/privacy/services/data_subject_requests.py.
pub mod Repository
pub mod Checks
pub mod Service
pub mod Patterns
pub mod Intake
pub mod Submission
pub mod Outcome
pub mod Submitted
pub mod Lawful
pub mod Races
pub mod Preserved
pub mod Histories
pub mod Statuses
pub mod Board
pub mod Idempotency
pub mod Intakes
pub mod Represented
