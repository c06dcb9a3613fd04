-- ===== src/Outbox/Queue/Selected.antt =====
-- What the queries of the outbox select.
use fastapi_saas_template.Prelude.{
  ℕ, Bool, true, false, ◌&&◌, ◌≡◌, Text, some, arith, ◌==◌, any, find_first, DistinctKeys, InTable,
  AllRows, AllRows-select, AllRows-take, AllRows-order_by, DistinctKeys-select, DistinctKeys-take,
  DistinctKeys-order_by, find_first-InTable, find_first-holds,
}
use fastapi_saas_template.Session.{Db}
use fastapi_saas_template.Models.OutboxEvent.{OutboxEvent, key, is_pending, is_processing}
use fastapi_saas_template.Outbox.Repository.{
  get_by_id, get_delivery_claimed_event, reservable, due_events, stale_events, is_due, is_stale,
  locked_or_zero,
}

module _ (now limit : ℕ) (db : Db) where
  pub due_events-distinct :
      DistinctKeys key db.outbox_events → DistinctKeys key (due_events now limit db)
  unfolding due_events
  due_events-distinct d = DistinctKeys-take key limit _ (
      DistinctKeys-order_by key (λ e. e.created_at) _
        (DistinctKeys-select key (is_due now) db.outbox_events d))

  pub due_events-AllRows :
      (P : OutboxEvent → Type 0)
      → ((e : OutboxEvent) → InTable e db.outbox_events → is_pending e.status ≡ true → P e)
      → AllRows P (due_events now limit db)
  unfolding due_events
  due_events-AllRows P h = AllRows-take P limit _ (
      AllRows-order_by P (λ e. e.created_at) _
        (AllRows-select P (is_due now) db.outbox_events (λ e i due. h e i (ground arith))))

  pub stale_events-distinct :
      (timeout : ℕ)
      → DistinctKeys key db.outbox_events
      → DistinctKeys key (stale_events now timeout limit db)
  unfolding stale_events
  stale_events-distinct timeout d = DistinctKeys-take key limit _ (
      DistinctKeys-order_by key locked_or_zero _
        (DistinctKeys-select key (is_stale now timeout) db.outbox_events d))

  pub stale_events-AllRows :
      (P : OutboxEvent → Type 0) (timeout : ℕ)
      → ((e : OutboxEvent) → InTable e db.outbox_events → is_processing e.status ≡ true → P e)
      → AllRows P (stale_events now timeout limit db)
  unfolding stale_events
  stale_events-AllRows P timeout h = AllRows-take P limit _ (
      AllRows-order_by P locked_or_zero _ (
        AllRows-select P (is_stale now timeout) db.outbox_events
          (λ e i stale. h e i (ground arith))))

-- An event that a query by id returned.
pub record Found (event_id : ℕ) (db : Db) (e : OutboxEvent) : Type 0 where
  pub stored : InTable e db.outbox_events
  pub has_id : e.id ≡ event_id

module _ (event_id : ℕ) (db : Db) (e : OutboxEvent) where
  pub get_by_id-Found : get_by_id event_id db ≡ some e → Found event_id db e
  unfolding get_by_id
  get_by_id-Found h = record {
    stored = find_first-InTable (λ x. x.id == event_id) db.outbox_events e h;
    has_id = ground (arith, find_first-holds (λ x. x.id == event_id) db.outbox_events e h);
  }

  pub get_delivery_claimed_event-Found :
      (claim_token : Text)
      → get_delivery_claimed_event event_id claim_token db ≡ some e
      → Found event_id db e × (is_processing e.status ≡ true)
  unfolding get_delivery_claimed_event
  get_delivery_claimed_event-Found claim_token h =
      let p : OutboxEvent → Bool = λ x. (x.id == event_id) && is_processing x.status in
      let found : find_first p db.outbox_events ≡ some e = ground arith in
      let holds : p e ≡ true = find_first-holds p db.outbox_events e found in
      (
        record { stored = find_first-InTable p db.outbox_events e found; has_id = ground arith },
        ground arith,
      )

  pub reservable-Found :
      reservable event_id db ≡ some e
      → Found event_id db e
        × (is_processing e.status ≡ true)
        × (any (λ c. c.event_id == event_id) db.delivery_claims ≡ false)
  unfolding reservable
  reservable-Found h = (get_by_id-Found (ground arith), ground arith, ground arith)
