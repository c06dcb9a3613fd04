-- ===== src/Outbox/Queue.antt =====
-- The invariant of the outbox tables, and that rewriting the rows of selected events keeps it.
pub mod Selected
pub mod Kept
pub mod Operations
pub mod Histories
use fastapi_saas_template.Prelude.{
  ℕ, Bool, true, false, ◌&&◌, ◌||◌, ◌≡◌, refl, ap, ◌∙◌, List, [], ◌∷◌, arith, ◌==◌, any, update_row,
  has_key, DistinctKeys, InTable, AllRows, Bool-cases, inl, inr, AllRows-update_of, AllRows-select,
  AllRows-InTable, DistinctKeys-update_row, DistinctKeys-select, InTable-update_row,
}
use fastapi_saas_template.Session.{Db}
use fastapi_saas_template.Models.OutboxEvent.{
  OutboxEvent, key, is_processing, OutboxDeliveryClaim, claim_key,
}
use fastapi_saas_template.Outbox.Repository.{clear_claim, settle_event, settle_each}
use fastapi_saas_template.Outbox.Rows.{IsSound}

-- The event of the claim is being processed.
abbrev pub is_held : List OutboxEvent → ℕ → Bool
is_held events event_id = any (λ e. (e.id == event_id) && is_processing e.status) events

abbrev pub IsHeld : List OutboxEvent → OutboxDeliveryClaim → Type 0
IsHeld events claim = is_held events claim.event_id ≡ true

-- Every stored event is sound, and every delivery claim is the only one of an event that is being
-- processed.
pub record QueueSound (db : Db) : Type 0 where
  pub distinct : DistinctKeys key db.outbox_events
  pub rows : AllRows IsSound db.outbox_events
  pub claims_distinct : DistinctKeys claim_key db.delivery_claims
  pub held : AllRows (IsHeld db.outbox_events) db.delivery_claims

is_held-update_row :
    (f : OutboxEvent → OutboxEvent) (k event_id : ℕ) (events : List OutboxEvent)
    → ((e : OutboxEvent) → (f e).id ≡ e.id)
    → (event_id == k) ≡ false
    → is_held (update_row key k f events) event_id ≡ is_held events event_id
unfolding any update_row
is_held-update_row f k event_id [] same other = refl
is_held-update_row f k event_id (e ∷ es) same other = elim (Bool-cases (e.id == k)) [
  | inl this ↦
      let old : (e.id == event_id) ≡ false = ground arith in
      let new : ((f e).id == event_id) ≡ false = ground (arith, same e) in
      rw (this, old, new) (is_held-update_row f k event_id es same other)
  | inr that ↦ rw that (
      ap (λ b. ((e.id == event_id) && is_processing e.status) || b)
        (is_held-update_row f k event_id es same other))
]

module _ (f : OutboxEvent → OutboxEvent) (same : (e : OutboxEvent) → (f e).id ≡ e.id) where
  -- Rewriting one event to a sound one and dropping its claim.
  pub settle_event-QueueSound :
      (db : Db) (m : OutboxEvent)
      → InTable m db.outbox_events
      → IsSound (f m)
      → QueueSound db
      → QueueSound (settle_event m f db)
  unfolding clear_claim
  settle_event-QueueSound db m i p q = record {
    distinct = DistinctKeys-update_row key m.id f db.outbox_events same q.distinct;
    rows = AllRows-update_of key IsSound f db.outbox_events m q.distinct i p q.rows;
    claims_distinct = DistinctKeys-select claim_key _ db.delivery_claims q.claims_distinct;
    held =
        AllRows-select (IsHeld (update_row key m.id f db.outbox_events)) _ db.delivery_claims
          (λ c j other.
            is_held-update_row f m.id c.event_id db.outbox_events same (ground arith)
            ∙ AllRows-InTable (IsHeld db.outbox_events) db.delivery_claims c q.held j);
  }

  -- The rows that are still to be rewritten stand in the table as they were selected.
  AllRows-later :
      (k : ℕ) (events xs : List OutboxEvent)
      → has_key key k xs ≡ false
      → AllRows (λ x. InTable x events) xs
      → AllRows (λ x. InTable x (update_row key k f events)) xs
  unfolding has_key
  AllRows-later k events [] h a = tt
  AllRows-later k events (x ∷ xs) h a = (
    InTable-update_row key k f events x (ground arith) a.0,
    AllRows-later k events xs (ground arith) a.1,
  )

  -- Rewriting each of several distinct events of the table to a sound one.
  pub settle_each-QueueSound :
      (xs : List OutboxEvent) (db : Db)
      → DistinctKeys key xs
      → AllRows (λ x. InTable x db.outbox_events) xs
      → AllRows (λ x. IsSound (f x)) xs
      → QueueSound db
      → QueueSound (settle_each f xs db)
  unfolding settle_each
  settle_each-QueueSound [] db d i p q = q
  settle_each-QueueSound (x ∷ xs) db d i p q =
      settle_each-QueueSound xs (settle_event x f db) d.1
        (AllRows-later x.id db.outbox_events xs d.0 i.1) p.1
        (settle_event-QueueSound db x i.0 p.0 q)
