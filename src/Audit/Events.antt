-- ===== src/Audit/Events.antt =====
-- `AuditEventService.record_event` of backend/app/audit/services/audit_events.py.
use fastapi_saas_template.Prelude.{[], ◌∷◌, ◌++◌, ◌≡◌, ◌⊎◌, inl, inr, refl, Option, arith}
use fastapi_saas_template.Errors.{Error, Result, ok, err}
use fastapi_saas_template.Session.{Session, Tx}
use fastapi_saas_template.Audit.Json.{Json}
use fastapi_saas_template.Audit.Metadata.{validate_metadata_json, validate_metadata-same}
use fastapi_saas_template.Models.AuditEvent.{AuditEvent}

append_event : AuditEvent → Option Json → Tx (Unit {0})
append_event event metadata s = (
  ok tt,
  record s {
    db = record s.db {
      audit_events = s.db.audit_events ++ (record event { metadata_json = metadata }) ∷ [];
    };
  },
)

-- The metadata is validated before the row is written.
unfoldable pub record_event : AuditEvent → Tx (Unit {0})
unfolding append_event
record_event event s = elim (validate_metadata_json event.metadata_json) [
  | ok metadata ↦ append_event event metadata s
  | err e ↦ (err e, s)
]

abbrev pub with_event : AuditEvent → Session → Session
with_event event s = record s {
  db = record s.db { audit_events = s.db.audit_events ++ event ∷ [] };
}

-- Recording appends the event as given, or raises and writes nothing.
pub record_event-cases :
    (event : AuditEvent) (s : Session)
    → (record_event event s ≡ (ok tt, with_event event s))
      ⊎ ((e : Error) × (record_event event s ≡ (err e, s)))
unfolding record_event
record_event-cases event s = cases (validate_metadata_json event.metadata_json) refl
  where
    cases :
        (r : Result (Option Json))
        → validate_metadata_json event.metadata_json ≡ r
        → (record_event event s ≡ (ok tt, with_event event s))
          ⊎ ((e : Error) × (record_event event s ≡ (err e, s)))
    cases (ok n) e = inl (cc (e, validate_metadata-same event.metadata_json n e))
    cases (err x) e = inr (x, cc e)

pub record_event-ok :
    (event : AuditEvent) (s t : Session)
    → record_event event s ≡ (ok tt, t)
    → t ≡ with_event event s
record_event-ok event s t h = elim (record_event-cases event s) [
  | inl e ↦ ground (arith, h, e)
  | inr (x, e) ↦ absurd (cc (h, e))
]
