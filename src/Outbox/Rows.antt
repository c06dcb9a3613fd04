-- ===== src/Outbox/Rows.antt =====
-- What holds of every stored event of backend/app/outbox, and that each write keeps it.
use fastapi_saas_template.Prelude.{
  ℕ, ◌+◌, ◌≤◌, ◌<◌, true, false, ◌≡◌, refl, Text, Bool-cases, inl, inr, arith, leb, is_some,
}
use fastapi_saas_template.Models.OutboxEvent.{OutboxEvent, is_pending, is_processing, is_terminal}
use fastapi_saas_template.Outbox.Payloads.{is_invite_event, scrub_sensitive_delivery_payload}
use fastapi_saas_template.Outbox.Payloads.Scrubbed.{has_sensitive, has_sensitive-scrub}
use fastapi_saas_template.Outbox.Repository.{claimed_at, reserved_at, processed_at, failed_at}

-- The attempts stay within their bound, and below it while the event may still be sent; the lock
-- time is set just while the event is being processed; and an invite event that is done holds
-- neither the address nor the token.
pub record IsSound (e : OutboxEvent) : Type 0 where
  pub bounded : e.attempts ≤ e.max_attempts
  pub live : is_terminal e.status ≡ false → e.attempts < e.max_attempts
  pub locked : is_some e.locked_at ≡ is_processing e.status
  pub scrubbed :
      is_terminal e.status ≡ true
      → is_invite_event e.event_type ≡ true
      → has_sensitive e.payload_json ≡ false

module _ (e : OutboxEvent) where
  processing-live : is_processing e.status ≡ true → is_terminal e.status ≡ false
  processing-live h = ground arith

  pending-live : is_pending e.status ≡ true → is_terminal e.status ≡ false
  pending-live h = ground arith

  -- Scrubbing an event that is done and whose other fields are in order puts all of it in order.
  scrub-IsSound :
      is_terminal e.status ≡ true
      → e.attempts ≤ e.max_attempts
      → is_some e.locked_at ≡ is_processing e.status
      → IsSound (scrub_sensitive_delivery_payload e)
  unfolding scrub_sensitive_delivery_payload
  scrub-IsSound d b k = elim (Bool-cases (is_invite_event e.event_type)) [
    | inl invite ↦ rw invite (record {
      bounded = b;
      live = λ l. absurd (ground arith);
      locked = k;
      scrubbed = λ done invited. has_sensitive-scrub e.payload_json;
    })
    | inr plain ↦ rw plain (record {
      bounded = b;
      live = λ l. absurd (ground arith);
      locked = k;
      scrubbed = λ done invited. absurd (ground (arith, plain, invited));
    })
  ]

module _ (e : OutboxEvent) where
  pub claimed-IsSound :
      (now : ℕ) → is_pending e.status ≡ true → IsSound e → IsSound (claimed_at now e)
  claimed-IsSound now h i = record {
    bounded = i.bounded;
    live = λ l. i.live (pending-live e h);
    locked = refl;
    scrubbed = λ done invited. absurd (ground arith);
  }

  pub reserved-IsSound :
      (now : ℕ) → is_processing e.status ≡ true → IsSound e → IsSound (reserved_at now e)
  reserved-IsSound now h i = record {
    bounded = i.bounded;
    live = i.live;
    locked = ground arith;
    scrubbed = i.scrubbed;
  }

  pub processed-IsSound : (now : ℕ) → IsSound e → IsSound (processed_at now e)
  unfolding processed_at
  processed-IsSound now i = scrub-IsSound _ refl i.bounded refl

  pub failed-IsSound :
      (now : ℕ) (error : Text)
      → is_processing e.status ≡ true
      → IsSound e
      → IsSound (failed_at now error e)
  unfolding failed_at
  failed-IsSound now error h i = elim (Bool-cases (leb e.max_attempts (e.attempts + 1))) [
    | inl last ↦ rw last (scrub-IsSound _ refl (ground (arith, i.live (processing-live e h))) refl)
    | inr more ↦ rw more (record {
      bounded = ground arith;
      live = λ l. ground arith;
      locked = refl;
      scrubbed = λ done invited. absurd (ground arith);
    })
  ]
