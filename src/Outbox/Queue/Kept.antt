-- ===== src/Outbox/Queue/Kept.antt =====
-- What the writes of the outbox keep: ids, held claims, and the invariant over a reservation.
use fastapi_saas_template.Prelude.{
  ℕ, true, false, ◌&&◌, ◌||◌, ◌≡◌, refl, subst, ap, ◌∙◌, Text, List, [], ◌∷◌, ◌++◌, some, arith,
  ◌==◌, ◌+◌, leb, any, has_key, update_row, InTable, inl, inr, AllRows-InTable, AllRows-update_of,
  AllRows-append, AllRows-map, DistinctKeys-update_row, DistinctKeys-append, Bool-cases,
}
use fastapi_saas_template.Session.{Db}
use fastapi_saas_template.Models.OutboxEvent.{
  OutboxEvent, key, is_processing, OutboxDeliveryClaim, claim_key,
}
use fastapi_saas_template.Outbox.Payloads.{is_invite_event, scrub_sensitive_delivery_payload}
use fastapi_saas_template.Outbox.Repository.{reserved_at, processed_at, failed_at, reservable}
use fastapi_saas_template.Outbox.Rows.{IsSound, reserved-IsSound}
use fastapi_saas_template.Outbox.Queue.{QueueSound, IsHeld, is_held}
use fastapi_saas_template.Outbox.Queue.Selected.{reservable-Found}

scrub-id : (e : OutboxEvent) → (scrub_sensitive_delivery_payload e).id ≡ e.id
unfolding scrub_sensitive_delivery_payload
scrub-id e = elim (Bool-cases (is_invite_event e.event_type)) [
  | inl i ↦ rw i refl
  | inr o ↦ rw o refl
]

pub processed-id : (now : ℕ) (e : OutboxEvent) → (processed_at now e).id ≡ e.id
unfolding processed_at
processed-id now e = scrub-id _

pub failed-id : (now : ℕ) (error : Text) (e : OutboxEvent) → (failed_at now error e).id ≡ e.id
unfolding failed_at
failed-id now error e = elim (Bool-cases (leb e.max_attempts (e.attempts + 1))) [
  | inl last ↦ rw last (scrub-id _)
  | inr more ↦ rw more refl
]

-- A claim's event is held as long as rows keep their id and status.
is_held-kept :
    (f : OutboxEvent → OutboxEvent) (k event_id : ℕ) (events : List OutboxEvent)
    → ((e : OutboxEvent) → (f e).id ≡ e.id)
    → ((e : OutboxEvent) → (f e).status ≡ e.status)
    → is_held (update_row key k f events) event_id ≡ is_held events event_id
unfolding any update_row
is_held-kept f k event_id [] i s = refl
is_held-kept f k event_id (e ∷ es) i s = elim (Bool-cases (e.id == k)) [
  | inl this ↦
      rw (this, i e, s e)
        (ap (λ b. ((e.id == event_id) && is_processing e.status) || b)
          (is_held-kept f k event_id es i s))
  | inr that ↦ rw that (
      ap (λ b. ((e.id == event_id) && is_processing e.status) || b)
        (is_held-kept f k event_id es i s))
]

is_held-InTable :
    (events : List OutboxEvent) (e : OutboxEvent)
    → InTable e events
    → is_processing e.status ≡ true
    → is_held events e.id ≡ true
unfolding any
is_held-InTable [] e i p = absurd i
is_held-InTable (x ∷ xs) e (inl same) p = ground (arith, ap key same)
is_held-InTable (x ∷ xs) e (inr i) p = ground (arith, is_held-InTable xs e i p)

unclaimed :
    (event_id : ℕ) (claims : List OutboxDeliveryClaim)
    → any (λ c. c.event_id == event_id) claims ≡ false
    → has_key claim_key event_id claims ≡ false
unfolding any has_key
unclaimed event_id [] h = refl
unclaimed event_id (c ∷ cs) h = ground (arith, unclaimed event_id cs)

-- The tables after a reservation.
abbrev pub reserved_db : ℕ → ℕ → Text → OutboxEvent → Db → Db
reserved_db now event_id claim_token event db = record db {
  outbox_events = update_row key event.id (reserved_at now) db.outbox_events;
  delivery_claims =
      db.delivery_claims
      ++ record { event_id = event_id; claim_token = claim_token; claimed_at = now } ∷ [];
}

pub reserved-QueueSound :
    (now event_id : ℕ) (claim_token : Text) (e : OutboxEvent) (db : Db)
    → reservable event_id db ≡ some e
    → QueueSound db
    → QueueSound (reserved_db now event_id claim_token e db)
reserved-QueueSound now event_id claim_token e db h q =
    let (found, running, free) = reservable-Found event_id db e h in
    let events = db.outbox_events in
    let kept : (c : ℕ)
        → is_held (update_row key e.id (reserved_at now) events) c ≡ is_held events c =
      λ c. is_held-kept (reserved_at now) e.id c events (λ x. refl) (λ x. refl) in
    record {
      distinct = DistinctKeys-update_row key e.id (reserved_at now) events (λ x. refl) q.distinct;
      rows =
          AllRows-update_of key IsSound (reserved_at now) events e q.distinct found.stored
            (reserved-IsSound e now running (AllRows-InTable IsSound events e q.rows found.stored))
            q.rows;
      claims_distinct =
          DistinctKeys-append claim_key db.delivery_claims _
            (unclaimed event_id db.delivery_claims free) q.claims_distinct;
      held =
          AllRows-append _ db.delivery_claims _
            (AllRows-map (IsHeld events) _ db.delivery_claims (λ c k. kept c.event_id ∙ k) q.held)
            (kept event_id
              ∙ subst (λ k. is_held events k ≡ true) found.has_id
                  (is_held-InTable events e found.stored running));
    }
