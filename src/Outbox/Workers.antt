-- ===== src/Outbox/Workers.antt =====
-- The parts of backend/app/outbox/workers.py and dispatcher.py that write.
use fastapi_saas_template.Prelude.{ℕ, Option, none, some, Text}
use fastapi_saas_template.Errors.{ok}
use fastapi_saas_template.Exec.{pure, ◌>>=◌}
use fastapi_saas_template.Session.{Tx, ask, begin}
use fastapi_saas_template.Models.OutboxEvent.{OutboxEvent}
use fastapi_saas_template.Outbox.Repository.{
  get_by_id, get_delivery_claimed_event, mark_processed, mark_failed_attempt,
  release_processing_event_for_retry,
}

-- What a delivery ended with: `success=True`, or `success=False` with an error.
pub data Outcome : Type 0 where
  success : Outcome
  failure : Option Text → Outcome

unfoldable pub apply_to : ℕ → Outcome → Option OutboxEvent → Tx (Unit {0})
apply_to now outcome none = pure tt
apply_to now success (some event) = mark_processed now event
apply_to now (failure none) (some event) = pure tt
apply_to now (failure (some error)) (some event) = mark_failed_attempt now event error

-- `_apply_result`
unfoldable pub apply_result : ℕ → ℕ → Text → Outcome → Tx (Unit {0})
unfolding apply_to
apply_result now event_id delivery_claim_token outcome = begin (do
  event ← ask (λ db. ok (get_delivery_claimed_event event_id delivery_claim_token db))
  apply_to now outcome event)

unfoldable pub release : ℕ → Text → Option OutboxEvent → Tx (Unit {0})
release now error none = pure tt
release now error (some event) = release_processing_event_for_retry now event error

-- The `except` branch of the dispatcher's loop: an event that could not be enqueued.
unfoldable pub release_unsent : ℕ → ℕ → Text → Tx (Unit {0})
unfolding release
release_unsent now event_id error =
    begin (do event ← ask (λ db. ok (get_by_id event_id db)); release now error event)
