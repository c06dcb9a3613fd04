-- ===== src/Outbox/Payloads.antt =====
-- `_scrub_sensitive_delivery_payload` of backend/app/outbox/repositories/outbox_events.py.
pub mod Scrubbed
use text.Mathlib.Text.{◌==◌}
use fastapi_saas_template.Prelude.{
  Bool, true, false, not, ◌||◌, List, [], ◌∷◌, String, if◌then◌else◌,
}
use fastapi_saas_template.Models.OutboxEvent.{
  EventType, invite_created, invite_resent, other_event, Payload, PayloadValue, flag, OutboxEvent,
}

unfoldable pub is_invite_event : EventType → Bool
is_invite_event invite_created = true
is_invite_event invite_resent = true
is_invite_event (other_event name) = false

-- `_SENSITIVE_INVITE_PAYLOAD_KEYS`
abbrev pub is_sensitive_key : String → Bool
is_sensitive_key k = (k == "email") || (k == "encrypted_raw_token")

unfoldable pub without_sensitive : Payload → Payload
without_sensitive [] = []
without_sensitive ((k, v) ∷ items) =
    let rest = without_sensitive items in if is_sensitive_key k then rest else (k, v) ∷ rest

-- `payload[key] = value`: in place, or at the end.
set_item : String → PayloadValue → Payload → Payload
set_item key value [] = (key, value) ∷ []
set_item key value ((k, v) ∷ items) =
    let rest = set_item key value items in if k == key then (k, value) ∷ items else (k, v) ∷ rest

unfoldable pub scrub_payload : Payload → Payload
unfolding without_sensitive set_item
scrub_payload payload =
    set_item "sensitive_payload_scrubbed" (flag true) (without_sensitive payload)

unfoldable pub scrub_sensitive_delivery_payload : OutboxEvent → OutboxEvent
scrub_sensitive_delivery_payload event =
    if is_invite_event event.event_type
    then record event { payload_json = scrub_payload event.payload_json }
    else event
