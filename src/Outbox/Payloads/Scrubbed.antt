-- ===== src/Outbox/Payloads/Scrubbed.antt =====
-- A scrubbed payload holds no sensitive key.

use fastapi_saas_template.Prelude.{
  Bool, false, ◌≡◌, refl, ◌||◌, [], ◌∷◌, String, arith, Bool-cases, inl, inr,
}
use fastapi_saas_template.Models.OutboxEvent.{Payload, PayloadValue}
use fastapi_saas_template.Outbox.Payloads.{
  is_sensitive_key, without_sensitive, set_item, scrub_payload,
}

unfoldable pub has_sensitive : Payload → Bool
has_sensitive [] = false
has_sensitive ((k, v) ∷ items) = is_sensitive_key k || has_sensitive items

has_sensitive-without : (p : Payload) → has_sensitive (without_sensitive p) ≡ false
unfolding has_sensitive without_sensitive
has_sensitive-without [] = refl
has_sensitive-without ((k, v) ∷ items) = elim (Bool-cases (is_sensitive_key k)) [
  | inl secret ↦ rw secret (has_sensitive-without items)
  | inr plain ↦ rw (plain, plain) (has_sensitive-without items)
]

has_sensitive-set_item :
    (key : String) (v : PayloadValue) (p : Payload)
    → is_sensitive_key key ≡ false
    → has_sensitive p ≡ false
    → has_sensitive (set_item key v p) ≡ false
unfolding has_sensitive set_item
has_sensitive-set_item key v [] s h = rw s
has_sensitive-set_item key v ((k, w) ∷ items) s h =
    ground (arith, has_sensitive-set_item key v items s)

pub has_sensitive-scrub : (p : Payload) → has_sensitive (scrub_payload p) ≡ false
unfolding scrub_payload
has_sensitive-scrub p =
    has_sensitive-set_item _ _ (without_sensitive p) refl (has_sensitive-without p)
