-- ===== src/Outbox/Queue/Operations.antt =====
-- Every write of the outbox keeps its invariant.
use fastapi_saas_template.Prelude.{
  ℕ, true, ◌≡◌, refl, sym, subst, ap, Text, List, Option, some, none, arith, inl, inr,
  AllRows-InTable, Bool-cases,
}
use fastapi_saas_template.Errors.{Result, ok}
use fastapi_saas_template.Exec.{bind-eq-ok, ◌>>=◌}
use fastapi_saas_template.Session.{Session}
use fastapi_saas_template.Session.Transactions.{begin-ok, opened}
use fastapi_saas_template.Models.OutboxEvent.{OutboxEvent, is_processing}
use fastapi_saas_template.Outbox.Repository.{
  claimed_at, processed_at, failed_at, claim_due_events, due_events, reserve, reservable,
  claim_processing_event_for_delivery, mark_processed, mark_failed_attempt,
  release_processing_event_for_retry, recover_stale_processing_events, stale_events, stale_error,
  get_by_id, get_delivery_claimed_event,
}
use fastapi_saas_template.Outbox.Workers.{
  Outcome, success, failure, apply_to, apply_result, release, release_unsent,
}
use fastapi_saas_template.Outbox.Rows.{IsSound, claimed-IsSound, processed-IsSound, failed-IsSound}
use fastapi_saas_template.Outbox.Queue.{QueueSound, settle_event-QueueSound, settle_each-QueueSound}
use fastapi_saas_template.Outbox.Queue.Selected.{
  Found, due_events-distinct, due_events-AllRows, stale_events-distinct, stale_events-AllRows,
  get_by_id-Found, get_delivery_claimed_event-Found,
}
use fastapi_saas_template.Outbox.Queue.Kept.{processed-id, failed-id, reserved-QueueSound}

module _ (s t : Session) (q : QueueSound s.db) where
  pub claim_due_events-QueueSound :
      (now limit : ℕ) (events : List OutboxEvent)
      → claim_due_events now limit s ≡ (ok events, t)
      → QueueSound t.db
  unfolding claim_due_events ◌>>=◌
  claim_due_events-QueueSound now limit events h =
      subst QueueSound (ap (λ (p : Result (List OutboxEvent) × Session). p.1.db) h) (
        settle_each-QueueSound (claimed_at now) (λ e. refl) (due_events now limit s.db) s.db
          (due_events-distinct now limit s.db q.distinct)
          (due_events-AllRows now limit s.db _ (λ e i due. i))
          (due_events-AllRows now limit s.db _ (λ e i due.
            claimed-IsSound e now due (AllRows-InTable IsSound s.db.outbox_events e q.rows i)))
          q)

  pub recover-QueueSound :
      (now timeout limit : ℕ) (events : List OutboxEvent)
      → recover_stale_processing_events now timeout limit s ≡ (ok events, t)
      → QueueSound t.db
  unfolding recover_stale_processing_events ◌>>=◌
  recover-QueueSound now timeout limit events h =
      subst QueueSound (ap (λ (p : Result (List OutboxEvent) × Session). p.1.db) h) (
        settle_each-QueueSound (failed_at now stale_error) (failed-id now stale_error)
          (stale_events now timeout limit s.db) s.db
          (stale_events-distinct now limit s.db timeout q.distinct)
          (stale_events-AllRows now limit s.db _ timeout (λ e i running. i))
          (stale_events-AllRows now limit s.db _ timeout (λ e i running.
            failed-IsSound e now stale_error running
              (AllRows-InTable IsSound s.db.outbox_events e q.rows i)))
          q)

  reserve-branch :
      (now event_id : ℕ) (claim_token : Text) (r found : Option OutboxEvent)
      → reservable event_id s.db ≡ found
      → reserve now event_id claim_token found s ≡ (ok r, t)
      → QueueSound t.db
  unfolding reserve ◌>>=◌
  reserve-branch now event_id claim_token r none e k =
      subst QueueSound (ap (λ (p : Result (Option OutboxEvent) × Session). p.1.db) k) q
  reserve-branch now event_id claim_token r (some event) e k =
      subst QueueSound (ap (λ (p : Result (Option OutboxEvent) × Session). p.1.db) k)
        (reserved-QueueSound now event_id claim_token event s.db e q)

  pub reserve-QueueSound :
      (now event_id : ℕ) (claim_token : Text) (r : Option OutboxEvent)
      → claim_processing_event_for_delivery now event_id claim_token s ≡ (ok r, t)
      → QueueSound t.db
  unfolding claim_processing_event_for_delivery
  reserve-QueueSound now event_id claim_token r h =
      let (found, s1, e1, h1) = bind-eq-ok _ _ s t r h in
      let same : s1 ≡ s = ground arith in
      reserve-branch now event_id claim_token r found (ground arith) (rw same at h1)

  -- The writes to an event that is being processed.
  mark_processed-QueueSound :
      (now event_id : ℕ) (e : OutboxEvent)
      → Found event_id s.db e
      → mark_processed now e s ≡ (ok tt, t)
      → QueueSound t.db
  unfolding mark_processed
  mark_processed-QueueSound now event_id e found h =
      subst QueueSound (ap (λ (p : Result (Unit {0}) × Session). p.1.db) h) (
        settle_event-QueueSound (processed_at now) (processed-id now) s.db e found.stored
          (processed-IsSound e now
            (AllRows-InTable IsSound s.db.outbox_events e q.rows found.stored))
          q)

  mark_failed_attempt-QueueSound :
      (now event_id : ℕ) (error : Text) (e : OutboxEvent)
      → Found event_id s.db e
      → is_processing e.status ≡ true
      → mark_failed_attempt now e error s ≡ (ok tt, t)
      → QueueSound t.db
  unfolding mark_failed_attempt
  mark_failed_attempt-QueueSound now event_id error e found running h =
      subst QueueSound (ap (λ (p : Result (Unit {0}) × Session). p.1.db) h) (
        settle_event-QueueSound (failed_at now error) (failed-id now error) s.db e found.stored
          (failed-IsSound e now error running
            (AllRows-InTable IsSound s.db.outbox_events e q.rows found.stored))
          q)

  apply_to-QueueSound :
      (now event_id : ℕ) (claim_token : Text) (outcome : Outcome) (found : Option OutboxEvent)
      → get_delivery_claimed_event event_id claim_token s.db ≡ found
      → apply_to now outcome found s ≡ (ok tt, t)
      → QueueSound t.db
  unfolding apply_to
  apply_to-QueueSound now event_id claim_token outcome none e h =
      subst QueueSound (ap (λ (p : Result (Unit {0}) × Session). p.1.db) h) q
  apply_to-QueueSound now event_id claim_token success (some x) e h =
      let found = get_delivery_claimed_event-Found event_id s.db x claim_token e in
      mark_processed-QueueSound now event_id x found.0 h
  apply_to-QueueSound now event_id claim_token (failure none) (some x) e h =
      subst QueueSound (ap (λ (p : Result (Unit {0}) × Session). p.1.db) h) q
  apply_to-QueueSound now event_id claim_token (failure (some error)) (some x) e h =
      let found = get_delivery_claimed_event-Found event_id s.db x claim_token e in
      mark_failed_attempt-QueueSound now event_id error x found.0 found.1 h

  release-QueueSound :
      (now event_id : ℕ) (error : Text) (found : Option OutboxEvent)
      → get_by_id event_id s.db ≡ found
      → release now error found s ≡ (ok tt, t)
      → QueueSound t.db
  unfolding release release_processing_event_for_retry
  release-QueueSound now event_id error none e h =
      subst QueueSound (ap (λ (p : Result (Unit {0}) × Session). p.1.db) h) q
  release-QueueSound now event_id error (some x) e h = elim (Bool-cases (is_processing x.status)) [
    | inl running ↦
        mark_failed_attempt-QueueSound now event_id error x (get_by_id-Found event_id s.db x e)
          running (rw running at h)
    | inr stopped ↦
        subst QueueSound (ap (λ (p : Result (Unit {0}) × Session). p.1.db) (rw stopped at h)) q
  ]

pub apply_result-QueueSound :
    (s t : Session) (now event_id : ℕ) (claim_token : Text) (outcome : Outcome)
    → apply_result now event_id claim_token outcome s ≡ (ok tt, t)
    → QueueSound s.db
    → QueueSound t.db
unfolding apply_result
apply_result-QueueSound s t now event_id claim_token outcome h q =
    let (u, e, d, l) = begin-ok _ s tt t h in
    let (found, s1, e1, h1) = bind-eq-ok _ _ (opened s) u tt e in
    let same : s1 ≡ opened s = ground arith in
    subst QueueSound (sym d) (
      apply_to-QueueSound (opened s) u q now event_id claim_token outcome found (ground arith)
        (rw same at h1))

pub release_unsent-QueueSound :
    (s t : Session) (now event_id : ℕ) (error : Text)
    → release_unsent now event_id error s ≡ (ok tt, t)
    → QueueSound s.db
    → QueueSound t.db
unfolding release_unsent
release_unsent-QueueSound s t now event_id error h q =
    let (u, e, d, l) = begin-ok _ s tt t h in
    let (found, s1, e1, h1) = bind-eq-ok _ _ (opened s) u tt e in
    let same : s1 ≡ opened s = ground arith in
    subst QueueSound (sym d)
      (release-QueueSound (opened s) u q now event_id error found (ground arith) (rw same at h1))
