-- ===== src/Outbox/Retries.antt =====
-- An event whose deliveries keep failing is given up at its last attempt, and not before.
use fastapi_saas_template.Prelude.{
  ℕ, ◌+◌, ◌≤◌, ◌<◌, ◌≡◌, refl, Text, List, [], ◌∷◌, arith, leb, length, if◌then◌else◌, Bool-cases,
  inl, inr,
}
use fastapi_saas_template.Models.OutboxEvent.{OutboxEvent, pending, failed}
use fastapi_saas_template.Outbox.Payloads.{is_invite_event, scrub_sensitive_delivery_payload}
use fastapi_saas_template.Outbox.Repository.{claimed_at, failed_at}

-- A delivery that failed: when the event was claimed, when the failure was recorded, and why.
pub record FailedAttempt : Type 0 where
  pub claimed : ℕ
  pub recorded : ℕ
  pub error : Text

-- The event is claimed and its delivery fails, again and again.
unfoldable pub failures : List FailedAttempt → OutboxEvent → OutboxEvent
failures [] e = e
failures (a ∷ rest) e = failures rest (failed_at a.recorded a.error (claimed_at a.claimed e))

-- What a failed attempt does to the counters and the status.
record Failed (e f : OutboxEvent) : Type 0 where
  attempts : f.attempts ≡ e.attempts + 1
  max_attempts : f.max_attempts ≡ e.max_attempts
  status : f.status ≡ (if leb e.max_attempts (e.attempts + 1) then failed else pending)

failed_at-Failed : (now : ℕ) (error : Text) (e : OutboxEvent) → Failed e (failed_at now error e)
unfolding failed_at scrub_sensitive_delivery_payload
failed_at-Failed now error e = elim (Bool-cases (leb e.max_attempts (e.attempts + 1))) [
  | inl last ↦ elim (Bool-cases (is_invite_event e.event_type)) [
    | inl i ↦ rw (last, i) (record { attempts = refl; max_attempts = refl; status = rw last refl })
    | inr o ↦ rw (last, o) (record { attempts = refl; max_attempts = refl; status = rw last refl })
  ]
  | inr more ↦ rw more (record { attempts = refl; max_attempts = refl; status = rw more refl })
]

-- An event that is claimed and fails as often as it has attempts left ends as `failed`; if it has
-- failed at least once but fewer times than that, it is pending again.
pub failures-status :
    (attempts : List FailedAttempt) (e : OutboxEvent)
    → 1 ≤ length attempts
    → (e.attempts + length attempts ≡ e.max_attempts → (failures attempts e).status ≡ failed)
      × (e.attempts + length attempts < e.max_attempts → (failures attempts e).status ≡ pending)
unfolding failures
failures-status [] e n = absurd (omega (arith, n))
failures-status (a ∷ []) e n =
    let f = failed_at-Failed a.recorded a.error (claimed_at a.claimed e) in
    (λ last. ground (arith, f.status, last), λ more. ground (arith, f.status, more))
failures-status (a ∷ b ∷ rest) e n =
    let f = failed_at-Failed a.recorded a.error (claimed_at a.claimed e) in
    let later =
      failures-status (b ∷ rest) (failed_at a.recorded a.error (claimed_at a.claimed e))
        (omega arith) in
    (
      λ last. later.0 (omega (arith, last, f.attempts, f.max_attempts)),
      λ more. later.1 (omega (arith, more, f.attempts, f.max_attempts)),
    )
