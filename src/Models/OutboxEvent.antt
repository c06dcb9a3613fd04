-- ===== src/Models/OutboxEvent.antt =====
-- backend/app/outbox/models/outbox_event.py
use fastapi_saas_template.Prelude.{ℕ, Bool, true, false, List, Option, String, Text}

pub data OutboxStatus : Type 0 where
  pending processing processed failed : OutboxStatus

abbrev pub is_pending : OutboxStatus → Bool
is_pending pending = true
is_pending _ = false

abbrev pub is_processing : OutboxStatus → Bool
is_processing processing = true
is_processing _ = false

abbrev pub is_terminal : OutboxStatus → Bool
is_terminal processed = true
is_terminal failed = true
is_terminal _ = false

-- The two members of `OutboxEventType`; the column is free text, so any other may be stored.
pub data EventType : Type 0 where
  invite_created invite_resent : EventType
  other_event : Text → EventType

-- The values that a payload holds.
pub data PayloadValue : Type 0 where
  text : Text → PayloadValue
  uuid : ℕ → PayloadValue
  flag : Bool → PayloadValue

abbrev pub Payload : Type 0
Payload = List (String × PayloadValue)

pub record OutboxEvent : Type 0 where
  pub id : ℕ
  pub event_type : EventType
  pub aggregate_type : Option Text
  pub aggregate_id : Option ℕ
  pub payload_json : Payload
  pub status : OutboxStatus
  pub attempts : ℕ
  pub max_attempts : ℕ
  pub next_attempt_at : Option ℕ
  pub locked_at : Option ℕ
  pub processed_at : Option ℕ
  pub last_error : Option Text
  pub created_at : ℕ
  pub updated_at : ℕ

abbrev pub key : OutboxEvent → ℕ
key e = e.id

pub record OutboxDeliveryClaim : Type 0 where
  pub event_id : ℕ
  pub claim_token : Text
  pub claimed_at : ℕ

abbrev pub claim_key : OutboxDeliveryClaim → ℕ
claim_key c = c.event_id
