-- ===== src/Outbox/Repository.antt =====
-- backend/app/outbox/repositories/outbox_events.py. The clock is read once in each operation, and
-- is an argument; row locks and `SKIP LOCKED` are not modelled.
use fastapi_saas_template.Prelude.{
  ℕ, ◌+◌, ◌^◌, Bool, true, false, not, ◌&&◌, List, [], ◌∷◌, ◌++◌, Option, none, some, ◌==◌, leb,
  ltb, if◌then◌else◌, find_first, select, order_by, any, update_row, take, map, Text, text_eq,
  codes,
}
use fastapi_saas_template.Errors.{ok}
use fastapi_saas_template.Exec.{pure, ◌>>=◌, ◌>>◌}
use fastapi_saas_template.Session.{Db, Tx, ask, modify}
use fastapi_saas_template.Models.OutboxEvent.{
  pending, processing, processed, failed, is_pending, is_processing, OutboxEvent, key,
  OutboxDeliveryClaim,
}
use fastapi_saas_template.Outbox.Payloads.{scrub_sensitive_delivery_payload}

abbrev at_or_before : Option ℕ → ℕ → Bool
at_or_before none now = true
at_or_before (some at) now = leb at now

abbrev pub is_due : ℕ → OutboxEvent → Bool
is_due now e = is_pending e.status && at_or_before e.next_attempt_at now

abbrev is_before : Option ℕ → ℕ → Bool
is_before none bound = false
is_before (some at) bound = ltb at bound

-- `locked_at < now - stale_timeout`
abbrev pub is_stale : ℕ → ℕ → OutboxEvent → Bool
is_stale now timeout e =
    is_processing e.status && elim e.locked_at [ none ↦ false | some at ↦ ltb (at + timeout) now ]

abbrev pub locked_or_zero : OutboxEvent → ℕ
locked_or_zero e = elim e.locked_at [ none ↦ 0 | some at ↦ at ]

unfoldable pub get_by_id : ℕ → Db → Option OutboxEvent
get_by_id event_id db = find_first (λ e. e.id == event_id) db.outbox_events

abbrev pub claims_of : ℕ → List OutboxDeliveryClaim → List OutboxDeliveryClaim
claims_of event_id = select (λ c. c.event_id == event_id)

-- `_clear_delivery_claim`
unfoldable pub clear_claim : ℕ → List OutboxDeliveryClaim → List OutboxDeliveryClaim
clear_claim event_id = select (λ c. not (c.event_id == event_id))

-- Rewrites the row of an event and drops its delivery claim.
abbrev pub settle_event : OutboxEvent → (OutboxEvent → OutboxEvent) → Db → Db
settle_event event f db = record db {
  outbox_events = update_row key event.id f db.outbox_events;
  delivery_claims = clear_claim event.id db.delivery_claims;
}

abbrev pub claimed_at : ℕ → OutboxEvent → OutboxEvent
claimed_at now e = record e { status = processing; locked_at = some now; updated_at = now }

-- The loops of `claim_due_events` and of the recovery over the selected rows.
unfoldable pub settle_each : (OutboxEvent → OutboxEvent) → List OutboxEvent → Db → Db
settle_each f [] db = db
settle_each f (event ∷ events) db = settle_each f events (settle_event event f db)

unfoldable pub due_events : ℕ → ℕ → Db → List OutboxEvent
due_events now limit db =
    take limit (order_by (λ e. e.created_at) (select (is_due now) db.outbox_events))

unfoldable pub claim_due_events : ℕ → ℕ → Tx (List OutboxEvent)
claim_due_events now limit = do
  due ← ask (λ db. ok (due_events now limit db))
  modify (settle_each (claimed_at now) due)
  pure (map (claimed_at now) due)

-- Whether the event can be reserved: it is being processed, and nobody has reserved it.
unfoldable pub reservable : ℕ → Db → Option OutboxEvent
reservable event_id db = elim (get_by_id event_id db) [
  | none ↦ none
  | some event ↦
      if is_processing event.status && not (any (λ c. c.event_id == event_id) db.delivery_claims)
      then some event
      else none
]

abbrev pub reserved_at : ℕ → OutboxEvent → OutboxEvent
reserved_at now e = record e { locked_at = some now; updated_at = now }

unfoldable pub reserve : ℕ → ℕ → Text → Option OutboxEvent → Tx (Option OutboxEvent)
reserve now event_id claim_token none = pure none
reserve now event_id claim_token (some event) = do
  modify λ db. record db {
    outbox_events = update_row key event.id (reserved_at now) db.outbox_events;
    delivery_claims =
        db.delivery_claims
        ++ record { event_id = event_id; claim_token = claim_token; claimed_at = now } ∷ [];
  }
  pure (some (reserved_at now event))

unfoldable pub claim_processing_event_for_delivery : ℕ → ℕ → Text → Tx (Option OutboxEvent)
unfolding reserve
claim_processing_event_for_delivery now event_id claim_token = do
  event ← ask (λ db. ok (reservable event_id db))
  reserve now event_id claim_token event

abbrev pub is_claim : ℕ → Text → OutboxDeliveryClaim → Bool
is_claim event_id claim_token c = (c.event_id == event_id) && text_eq c.claim_token claim_token

-- The join on the claim's token.
unfoldable pub get_delivery_claimed_event : ℕ → Text → Db → Option OutboxEvent
get_delivery_claimed_event event_id claim_token db =
    if any (is_claim event_id claim_token) db.delivery_claims
    then find_first (λ e. (e.id == event_id) && is_processing e.status) db.outbox_events
    else none

unfoldable pub processed_at : ℕ → OutboxEvent → OutboxEvent
processed_at now e = scrub_sensitive_delivery_payload (record e {
  status = processed;
  processed_at = some now;
  locked_at = none;
  last_error = none;
  updated_at = now;
})

unfoldable pub mark_processed : ℕ → OutboxEvent → Tx (Unit {0})
mark_processed now event = modify (settle_event event (processed_at now))

-- `2 ** attempts` seconds until the next attempt.
unfoldable pub failed_at : ℕ → Text → OutboxEvent → OutboxEvent
failed_at now error e =
    let attempts = e.attempts + 1 in
    if leb e.max_attempts attempts
    then scrub_sensitive_delivery_payload (record e {
      attempts = attempts;
      locked_at = none;
      last_error = some (take 500 error);
      status = failed;
      next_attempt_at = none;
      updated_at = now;
    })
    else record e {
      attempts = attempts;
      locked_at = none;
      last_error = some (take 500 error);
      status = pending;
      next_attempt_at = some (now + 2 ^ attempts);
      updated_at = now;
    }

unfoldable pub mark_failed_attempt : ℕ → OutboxEvent → Text → Tx (Unit {0})
mark_failed_attempt now event error = modify (settle_event event (failed_at now error))

unfoldable pub release_processing_event_for_retry : ℕ → OutboxEvent → Text → Tx (Unit {0})
release_processing_event_for_retry now event error =
    if is_processing event.status then mark_failed_attempt now event error else pure tt

unfoldable pub stale_events : ℕ → ℕ → ℕ → Db → List OutboxEvent
stale_events now timeout limit db =
    take limit (order_by locked_or_zero (select (is_stale now timeout) db.outbox_events))

abbrev pub stale_error : Text
stale_error = codes "stale_processing_recovered"

unfoldable pub recover_stale_processing_events : ℕ → ℕ → ℕ → Tx (List OutboxEvent)
recover_stale_processing_events now timeout limit = do
  stale ← ask (λ db. ok (stale_events now timeout limit db))
  modify (settle_each (failed_at now stale_error) stale)
  pure (map (failed_at now stale_error) stale)
