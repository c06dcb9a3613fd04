-- ===== src/Tests/Outbox.antt =====
-- The theorems of Outbox at concrete inputs.
use fastapi_saas_template.Prelude.{
  ℕ, Bool, true, false, ◌≡◌, refl, Text, none, some, [], ◌∷◌, codes, arith, has_key, find_first,
  select, any, update_row, text_eq, order_by,
}
use fastapi_saas_template.Errors.{ok}
use fastapi_saas_template.Exec.{◌>>=◌}
use fastapi_saas_template.Session.{Session, begin}
use fastapi_saas_template.Models.OutboxEvent.{OutboxEvent, invite_created, pending, failed, text}
use fastapi_saas_template.Outbox.Payloads.{scrub_payload, scrub_sensitive_delivery_payload}
use fastapi_saas_template.Outbox.Repository.{
  claimed_at, processed_at, failed_at, claim_due_events, due_events, settle_each, clear_claim,
  reserve, reservable, claim_processing_event_for_delivery, mark_processed, mark_failed_attempt,
  get_by_id, get_delivery_claimed_event,
}
use fastapi_saas_template.Outbox.Workers.{Outcome, failure, apply_to, apply_result}
use fastapi_saas_template.Outbox.Queue.{QueueSound}
use fastapi_saas_template.Outbox.Queue.Histories.{
  QueueHistory, here, next, claimed, reserved, applied, QueueHistory-QueueSound,
}
use fastapi_saas_template.Outbox.Delivery.{reservation_excludes}
use fastapi_saas_template.Outbox.Retries.{FailedAttempt, failures, failures-status}
use fastapi_saas_template.Tests.Fixture.{tenant_db, session}

abbrev invited : OutboxEvent
invited = record {
  id = 40;
  event_type = invite_created;
  aggregate_type = none;
  aggregate_id = none;
  payload_json = ("email", text (codes "ann@example.com")) ∷ [];
  status = pending;
  attempts = 0;
  max_attempts = 2;
  next_attempt_at = none;
  locked_at = none;
  processed_at = none;
  last_error = none;
  created_at = 5;
  updated_at = 5;
}

abbrev start : Session
start = session (record tenant_db { outbox_events = invited ∷ [] })

abbrev mine : Text
mine = codes "mine"

abbrev theirs : Text
theirs = codes "theirs"

-- All that a run computes through.
running : Bool
unfolding claim_due_events due_events settle_each clear_claim reserve reservable
    claim_processing_event_for_delivery mark_processed mark_failed_attempt get_by_id
    get_delivery_claimed_event apply_to apply_result begin ◌>>=◌ order_by has_key find_first select
    any update_row text_eq processed_at failed_at scrub_payload scrub_sensitive_delivery_payload
running = true

abbrev after_claim : Session
after_claim = (claim_due_events 100 10 start).1

abbrev after_reservation : Session
after_reservation = (claim_processing_event_for_delivery 101 40 mine after_claim).1

abbrev after_failure : Session
after_failure = (apply_result 102 40 mine (failure (some (codes "down"))) after_reservation).1

-- The event is claimed, reserved, and its first delivery fails.
history : QueueHistory start after_failure
unfolding running
history =
    next
      (next (next here (claimed 100 10 (claimed_at 100 invited ∷ []) refl))
        (reserved 101 40 mine (some (claimed_at 101 invited)) refl))
      (applied 102 40 mine (failure (some (codes "down"))) refl)

QueueHistory-QueueSound_example : QueueSound after_failure.db
QueueHistory-QueueSound_example = QueueHistory-QueueSound history (record {
  distinct = (unfold has_key in refl, tt);
  rows = (
    record {
      bounded = omega arith;
      live = λ l. omega arith;
      locked = refl;
      scrubbed = λ done invite. absurd (ground arith);
    },
    tt,
  );
  claims_distinct = tt;
  held = tt;
})

reservation_excludes_example :
    ((later : ℕ) (other : Text)
      → claim_processing_event_for_delivery later 40 other after_reservation
        ≡ (ok none, after_reservation))
    × ((later : ℕ) (other : Text) (outcome : Outcome)
        → text_eq mine other ≡ false
        → apply_result later 40 other outcome after_reservation ≡ (ok tt, after_reservation))
unfolding running
reservation_excludes_example =
    reservation_excludes 101 40 mine after_claim after_reservation (claimed_at 101 invited) refl
      refl

abbrev attempt : ℕ → FailedAttempt
attempt now = record { claimed = now; recorded = now; error = codes "down" }

failures-status_example : (failures (attempt 1 ∷ attempt 9 ∷ []) invited).status ≡ failed
failures-status_example =
    (failures-status (attempt 1 ∷ attempt 9 ∷ []) invited (omega arith)).0 refl
