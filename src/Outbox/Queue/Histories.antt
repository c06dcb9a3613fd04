-- ===== src/Outbox/Queue/Histories.antt =====
-- Every history of the outbox's writes keeps its invariant.
use fastapi_saas_template.Prelude.{ℕ, ◌≡◌, Text, List, Option}
use fastapi_saas_template.Errors.{ok}
use fastapi_saas_template.Session.{Session}
use fastapi_saas_template.Models.OutboxEvent.{OutboxEvent}
use fastapi_saas_template.Outbox.Repository.{
  claim_due_events, claim_processing_event_for_delivery, recover_stale_processing_events,
}
use fastapi_saas_template.Outbox.Workers.{Outcome, apply_result, release_unsent}
use fastapi_saas_template.Outbox.Queue.{QueueSound}
use fastapi_saas_template.Outbox.Queue.Operations.{
  claim_due_events-QueueSound, recover-QueueSound, reserve-QueueSound, apply_result-QueueSound,
  release_unsent-QueueSound,
}

-- A write of the outbox that returned, in a transaction of its own.
pub data QueueStep (s t : Session) : Type 0 where
  claimed :
      (now limit : ℕ) (events : List OutboxEvent)
      → claim_due_events now limit s ≡ (ok events, t)
      → QueueStep s t
  reserved :
      (now event_id : ℕ) (claim_token : Text) (event : Option OutboxEvent)
      → claim_processing_event_for_delivery now event_id claim_token s ≡ (ok event, t)
      → QueueStep s t
  applied :
      (now event_id : ℕ) (claim_token : Text) (outcome : Outcome)
      → apply_result now event_id claim_token outcome s ≡ (ok tt, t)
      → QueueStep s t
  released :
      (now event_id : ℕ) (error : Text)
      → release_unsent now event_id error s ≡ (ok tt, t)
      → QueueStep s t
  recovered :
      (now timeout limit : ℕ) (events : List OutboxEvent)
      → recover_stale_processing_events now timeout limit s ≡ (ok events, t)
      → QueueStep s t

pub data QueueHistory (s : Session) : Session → Type 0 where
  here : QueueHistory s s
  next : {t u : Session} → QueueHistory s t → QueueStep t u → QueueHistory s u

QueueStep-QueueSound : {s t : Session} → QueueStep s t → QueueSound s.db → QueueSound t.db
QueueStep-QueueSound {s = s} {t = t} (claimed now limit events h) q =
    claim_due_events-QueueSound s t q now limit events h
QueueStep-QueueSound {s = s} {t = t} (reserved now event_id claim_token event h) q =
    reserve-QueueSound s t q now event_id claim_token event h
QueueStep-QueueSound {s = s} {t = t} (applied now event_id claim_token outcome h) q =
    apply_result-QueueSound s t now event_id claim_token outcome h q
QueueStep-QueueSound {s = s} {t = t} (released now event_id error h) q =
    release_unsent-QueueSound s t now event_id error h q
QueueStep-QueueSound {s = s} {t = t} (recovered now timeout limit events h) q =
    recover-QueueSound s t q now timeout limit events h

-- From tables that satisfy the invariant, no sequence of claims, reservations, recorded outcomes,
-- releases and recoveries breaks it: the attempts of an event stay within their bound, and below
-- it while the event may still be sent; the lock time is set just while it is being processed; an
-- invite event that is done holds neither address nor token; and a delivery claim is the only one
-- of an event that is being processed.
pub QueueHistory-QueueSound : {s t : Session} → QueueHistory s t → QueueSound s.db → QueueSound t.db
QueueHistory-QueueSound here q = q
QueueHistory-QueueSound (next r st) q = QueueStep-QueueSound st (QueueHistory-QueueSound r q)
