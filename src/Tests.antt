-- ===== src/Tests.antt =====
-- Tests on small databases, and the theorems at inputs that meet their hypotheses.
mod Fixture
mod Audit
mod Memberships
mod Platform
mod RateLimit
mod Outbox
mod Invites
mod Privacy
mod Exports
mod Organisations
