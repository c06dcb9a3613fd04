-- ===== src/Session.antt =====
-- The database behind an `AsyncSession`, its transactions, and the business rate limiters.
-- The limiters' counters live in Redis: a rollback does not undo them.
pub mod Transactions
pub mod Preserved
use fastapi_saas_template.Prelude.{ℕ, suc, Bool, true, false, Option, none, some, List}
use fastapi_saas_template.Errors.{Error, Result, ok, err, integrity_error, invalid_request}
use fastapi_saas_template.Exec.{Exec}
use fastapi_saas_template.Models.User.{User}
use fastapi_saas_template.Models.Organisation.{Organisation}
use fastapi_saas_template.Models.Membership.{Membership}
use fastapi_saas_template.Models.Invite.{Invite}
use fastapi_saas_template.Models.OutboxEvent.{OutboxEvent, OutboxDeliveryClaim}
use fastapi_saas_template.Models.PlatformStaff.{PlatformStaff}
use fastapi_saas_template.Models.AuditEvent.{AuditEvent}
use fastapi_saas_template.Models.DataSubjectRequest.{DataSubjectRequest}
use fastapi_saas_template.Models.ExportArtifact.{ExportArtifact}

pub record Db : Type 0 where
  pub users : List User
  pub organisations : List Organisation
  pub memberships : List Membership
  pub invites : List Invite
  pub outbox_events : List OutboxEvent
  pub delivery_claims : List OutboxDeliveryClaim
  pub platform_staff : List PlatformStaff
  pub audit_events : List AuditEvent
  pub data_subject_requests : List DataSubjectRequest
  pub export_artifacts : List ExportArtifact

pub record Session : Type 0 where
  pub db : Db
  pub in_transaction : Bool
  pub limiter_calls : ℕ

abbrev pub Tx : Type 0 → Type 0
Tx A = Exec Session A

-- Reads the database and may raise.
abbrev pub ask : {A : Type 0} → (Db → Result A) → Tx A
ask f s = (f s.db, s)

-- Writes the database.
abbrev pub modify : (Db → Db) → Tx (Unit {0})
modify f s = (ok tt, record s { db = f s.db })

-- The end of `async with session.begin()`: an exception rolls the database back.
abbrev pub settle : {A : Type 0} → Db → Result A × Session → Result A × Session
settle old (ok a, s) = (ok a, record s { in_transaction = false })
settle old (err e, s) = (err e, record s { db = old; in_transaction = false })

-- `async with self.session.begin()`: SQLAlchemy refuses to begin twice.
unfoldable pub begin : {A : Type 0} → Tx A → Tx A
begin m s = elim s.in_transaction [
  | true ↦ (err invalid_request, s)
  | false ↦ settle s.db (m (record s { in_transaction = true }))
]

-- `if self.session.in_transaction(): m  else: async with self.session.begin(): m`
unfoldable pub join_or_begin : {A : Type 0} → Tx A → Tx A
join_or_begin m s = elim s.in_transaction [
  | true ↦ m s
  | false ↦ settle s.db (m (record s { in_transaction = true }))
]

abbrev pub recover : {A : Type 0} → Error → Result A → Session → Result A × Session
recover e (ok a) s = (ok a, s)
recover e (err integrity_error) s = (err e, s)
recover e (err x) s = (err x, s)

-- `try: m  except IntegrityError: raise e`
unfoldable pub on_integrity_error : {A : Type 0} → Error → Tx A → Tx A
on_integrity_error e m s = recover e (m s).0 (m s).1

-- `try: async with session.begin_nested(): m  except IntegrityError: handler`: the savepoint takes
-- the writes of `m` back.
abbrev pub handle : {A : Type 0} → Db → Tx A → Result A → Tx A
handle old handler (ok a) s = (ok a, s)
handle old handler (err integrity_error) s = handler (record s { db = old })
handle old handler (err e) s = (err e, record s { db = old })

unfoldable pub nested_or : {A : Type 0} → Tx A → Tx A → Tx A
nested_or m handler s = handle s.db handler (m s).0 (m s).1

-- `_run_business_rate_limiter`: the limiter counts the call, and may raise.
unfoldable pub run_business_rate_limiter : Option (Result (Unit {0})) → Tx (Unit {0})
run_business_rate_limiter none s = (ok tt, s)
run_business_rate_limiter (some outcome) s =
    (outcome, record s { limiter_calls = suc s.limiter_calls })
