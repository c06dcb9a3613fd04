-- ===== src/Lib.antt =====
-- The multi-tenant SaaS backend of backend/app: the services that change organisations' staff,
-- the platform's own staff, the audit log, the delivery queue and the rate-limit counters.
--
-- How the parts work together. A service opens a transaction on the database session, reads rows
-- through a repository, checks its guards, writes rows through the repository and records an
-- audit event in the same transaction. Every error is raised as an AppError and undoes the
-- transaction. Routes resolve the acting user or platform actor first and may run a rate limiter
-- inside the transaction, after the guards and before the first write.
--
-- Files and code (paths below backend/app):
--   Prelude     Boolean tests, tables as lists of rows with an id, texts as lists of code points.
--   Errors      core/errors: the error classes the services raise, as a result type.
--   Exec        code that reads and changes a session and may raise, as a state and error monad.
--   Models      the row types of users/models, organisations/models, memberships/models,
--               invites/models, outbox/models, platform/models and audit/models.
--   Session     the database as one table per model, and a session over it: whether a transaction
--               is open, and the calls the rate limiter has received. `join_or_begin` is
--               `async with session.begin()` unless a transaction is already open (the
--               `if self.session.in_transaction()` of each service); an error gives back the
--               database of the start. `on_integrity_error` is a flush inside `try`.
--   Guards      access_control/guards.py.
--   Users       users/services and users/repositories: the lookups, and the projection of a token
--               on the table of users (`get_or_create_current_user`).
--   Organisations
--               organisations/: the lookup that the other services call, the normalised name and
--               slug (Names), the writes of the repository and of the service, with the partial
--               unique index on the slugs of organisations that are not deleted.
--   Audit       audit/services/audit_events.py: metadata as a JSON value, its validation by a
--               loop over a stack, its depth, and the recording of an event.
--   Memberships memberships/repositories and memberships/services: `_change_membership_role` is
--               `change_membership_role_in_transaction`, and so on for each operation; the guards
--               of an operation are in Memberships.Checks.
--   Platform    core/platform (permissions, actors, write context), the staff service and
--               repository of platform/, and its decisions on users and organisations. These
--               find deleted organisations too (`include_deleted=True`), where the services of
--               the tenant do not.
--   RateLimit   core/rate_limit/grouped_atomic.py over a Redis store of counters with a time to
--               live: the Lua script, the reader of its reply and the fallback.
--   Outbox      outbox/repositories/outbox_events.py, `_apply_result` of outbox/workers.py and
--               the claim and release of outbox/dispatcher.py.
--   Invites     invites/repositories and `accept_invite` and `revoke_invite` of invites/services;
--               the hash of a token is an argument.
--   Privacy     Privacy.Requests is privacy/services/data_subject_requests.py with its repository:
--               the guards (Checks), the operations on a stored request (Service), the patterns an
--               idempotency key must not match (Patterns), what a submission is checked for
--               (Intake) and the submission itself (Submission). The hash of a text and the text
--               of a UUID are arguments. Between the read of a request and its guarded UPDATE
--               other sessions may commit: `others` is what they do to the database.
--               Privacy.Exports is privacy/export_artifact_lifecycle.py, the repository of export
--               artifacts and the operations of privacy/services/export_artifacts.py: the fields
--               that a transition changes (Lifecycle), the state of the request's execution that
--               follows an artifact (Execution), the operations (Service) and, for the proofs, what
--               an operation may do to the table (Rewrites). The settings and `uuid4` are
--               arguments; the files and their storage are outside.
--   Tests       concrete runs, and every theorem with hypotheses applied to one of them.
--
-- Representation. UUIDs are natural numbers, fresh ids and the time are arguments; times are in
-- seconds and a time to live in milliseconds. A text is its list of code points, and `lower` and
-- `strip` treat ASCII. A nullable column is an Option. A query that the indexes allow to return
-- one row is the first match in the table; a partial unique index is a test on the table that a
-- flush runs, an integrity error when it fails. `with_for_update` reads are reads, since a step
-- of a session runs alone.
--
-- Bounds. The loop `_validate_no_forbidden_metadata_keys` runs on a fuel that is the number of
-- constructors of its value; each turn takes one node off the stack and adds its children, so
-- this is enough, and the equivalence with the recursive check holds for every value. All other
-- loops are structural; a pattern is matched by derivatives, one for each character. The numbers
-- of the rate limiter are not bounded by a machine width.
--
-- Not modelled: routes and schemas, configuration, logging, metrics and tracing, the engine and
-- migrations, payload encryption, delivery of mail, authentication, the archives and the
-- storage of exports, erasures and retention of privacy/, the creation and resending of invites,
-- and the listing queries with their pagination. Two sessions interleave only where `others` stands; elsewhere the row locks
-- that keep them apart are taken as granted.
pub mod Prelude
pub mod Errors
pub mod Exec
pub mod Models
pub mod Session
pub mod Audit
pub mod Guards
pub mod Users
pub mod Organisations
pub mod Memberships
pub mod Platform
pub mod RateLimit
pub mod Outbox
pub mod Invites
pub mod Privacy
mod Tests
