-- ===== src/Outbox/Delivery.antt =====
-- A reservation keeps other workers away from its event.
use fastapi_saas_template.Prelude.{
  ℕ, Bool, true, false, ◌||◌, ◌≡◌, refl, subst, ap, ◌∙◌, Text, List, [], ◌∷◌, ◌++◌, Option, some,
  none, arith, ◌==◌, any, text_eq,
}
use fastapi_saas_template.Errors.{Result, ok}
use fastapi_saas_template.Exec.{bind-eq-ok, ◌>>=◌}
use fastapi_saas_template.Session.{Session, begin}
use fastapi_saas_template.Models.OutboxEvent.{OutboxEvent, OutboxDeliveryClaim}
use fastapi_saas_template.Outbox.Repository.{
  reserve, reservable, is_claim, claim_processing_event_for_delivery, get_delivery_claimed_event,
}
use fastapi_saas_template.Outbox.Workers.{Outcome, apply_to, apply_result}
use fastapi_saas_template.Outbox.Queue.Selected.{reservable-Found}
use fastapi_saas_template.Outbox.Queue.Kept.{reserved_db}

abbrev claims_event : ℕ → OutboxDeliveryClaim → Bool
claims_event event_id c = c.event_id == event_id

any-append :
    {A : Type 0} (p : A → Bool) (xs : List A) (x : A) → any p (xs ++ x ∷ []) ≡ (any p xs || p x)
unfolding any
any-append p [] x = ground arith
any-append p (y ∷ ys) x = ground (arith, any-append p ys x)

-- A token that no claim of the event holds.
any-is_claim :
    (event_id : ℕ) (token : Text) (claims : List OutboxDeliveryClaim)
    → any (claims_event event_id) claims ≡ false
    → any (is_claim event_id token) claims ≡ false
unfolding any
any-is_claim event_id token [] h = refl
any-is_claim event_id token (c ∷ cs) h = ground (arith, any-is_claim event_id token cs)

module _ (now event_id : ℕ) (claim_token : Text) (s t : Session) (e : OutboxEvent) where
  -- The session after a reservation that returned an event.
  reserve-some :
      (found : Option OutboxEvent)
      → reserve now event_id claim_token found s ≡ (ok (some e), t)
      → (x : OutboxEvent) × (found ≡ some x)
        × (record s { db = reserved_db now event_id claim_token x s.db } ≡ t)
  unfolding reserve ◌>>=◌
  reserve-some none h = absurd (cc)
  reserve-some (some x) h = (x, refl, ap (λ (p : Result (Option OutboxEvent) × Session). p.1) h)

  reservation :
      claim_processing_event_for_delivery now event_id claim_token s ≡ (ok (some e), t)
      → (x : OutboxEvent) × (reservable event_id s.db ≡ some x)
        × (record s { db = reserved_db now event_id claim_token x s.db } ≡ t)
  unfolding claim_processing_event_for_delivery
  reservation h =
      let (found, s1, e1, h1) = bind-eq-ok _ _ s t (some e) h in
      let same : s1 ≡ s = ground arith in
      let (x, f, after) = reserve-some found (rw same at h1) in (x, ground arith, after)

  claimed_after :
      (x : OutboxEvent)
      → record s { db = reserved_db now event_id claim_token x s.db } ≡ t
      → any (claims_event event_id) t.db.delivery_claims ≡ true
  unfolding any
  claimed_after x after =
      subst (λ (u : Session). any (claims_event event_id) u.db.delivery_claims ≡ true) after
        (any-append (claims_event event_id) s.db.delivery_claims _ ∙ ground arith)

  foreign_after :
      (x : OutboxEvent) (other : Text)
      → reservable event_id s.db ≡ some x
      → record s { db = reserved_db now event_id claim_token x s.db } ≡ t
      → text_eq claim_token other ≡ false
      → any (is_claim event_id other) t.db.delivery_claims ≡ false
  foreign_after x other r after differs =
      let (found, running, free) = reservable-Found event_id s.db x r in
      let none_before = any-is_claim event_id other s.db.delivery_claims free in
      subst (λ (u : Session). any (is_claim event_id other) u.db.delivery_claims ≡ false) after
        (any-append (is_claim event_id other) s.db.delivery_claims _ ∙ ground arith)

reserve_claimed :
    (now event_id : ℕ) (claim_token : Text) (t : Session)
    → any (claims_event event_id) t.db.delivery_claims ≡ true
    → claim_processing_event_for_delivery now event_id claim_token t ≡ (ok none, t)
unfolding claim_processing_event_for_delivery reserve ◌>>=◌
reserve_claimed now event_id claim_token t h =
    ap (λ found. reserve now event_id claim_token found t) (unreservable h)
  where
    unreservable :
        any (claims_event event_id) t.db.delivery_claims ≡ true → reservable event_id t.db ≡ none
    unreservable h = unfold reservable in ground arith

apply_unclaimed :
    (now event_id : ℕ) (claim_token : Text) (outcome : Outcome) (t : Session)
    → t.in_transaction ≡ false
    → any (is_claim event_id claim_token) t.db.delivery_claims ≡ false
    → apply_result now event_id claim_token outcome t ≡ (ok tt, t)
unfolding apply_result apply_to ◌>>=◌ begin get_delivery_claimed_event
apply_unclaimed now event_id claim_token outcome t closed h = rw (closed, h) refl

-- When a reservation has returned the event, any later reservation of it returns nothing and
-- changes nothing, and an outcome reported under a token other than the reserving one changes
-- nothing.
pub reservation_excludes :
    (now event_id : ℕ) (claim_token : Text) (s t : Session) (e : OutboxEvent)
    → claim_processing_event_for_delivery now event_id claim_token s ≡ (ok (some e), t)
    → t.in_transaction ≡ false
    → ((later : ℕ) (other : Text)
        → claim_processing_event_for_delivery later event_id other t ≡ (ok none, t))
      × ((later : ℕ) (other : Text) (outcome : Outcome)
          → text_eq claim_token other ≡ false
          → apply_result later event_id other outcome t ≡ (ok tt, t))
reservation_excludes now event_id claim_token s t e h closed =
    let (x, r, after) = reservation now event_id claim_token s t e h in
    (
      λ later other.
          reserve_claimed later event_id other t
            (claimed_after now event_id claim_token s t e x after),
      λ later other outcome differs.
          apply_unclaimed later event_id other outcome t closed
            (foreign_after now event_id claim_token s t e x other r after differs),
    )
