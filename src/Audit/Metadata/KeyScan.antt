-- ===== src/Audit/Metadata/KeyScan.antt =====
-- The stack loop of `_validate_no_forbidden_metadata_keys` against a recursion on the value.
use fastapi_saas_template.Prelude.{
  ℕ, zero, suc, ◌+◌, ◌≤◌, ◌≡◌, refl, Bool, true, false, List, [], ◌∷◌, ◌&&◌, not, if◌then◌else◌,
  arith, ◌∙◌,
}
use fastapi_saas_template.Errors.{Error, Result, ok, err, value_error}
use fastapi_saas_template.Audit.Json.{
  Json, list, dict, Items, no_items, item, Fields, no_fields, entry, size, size_items, size_fields,
}
use fastapi_saas_template.Audit.Metadata.{
  is_forbidden_key, push_fields, push_items, scan_keys, validate_no_forbidden_metadata_keys,
}

abbrev pub forbidden : Error
forbidden = value_error "Audit metadata contains forbidden keys"

-- No key of a dictionary anywhere inside the value is forbidden.
unfoldable mutual
  pub keys_allowed : Json → Bool
  keys_allowed (dict fs) = fields_allowed fs
  keys_allowed (list xs) = items_allowed xs
  keys_allowed _ = true

  pub items_allowed : Items → Bool
  items_allowed no_items = true
  items_allowed (item x xs) = keys_allowed x && items_allowed xs

  pub fields_allowed : Fields → Bool
  fields_allowed no_fields = true
  fields_allowed (entry k v fs) = not (is_forbidden_key k) && (keys_allowed v && fields_allowed fs)

own_keys_allowed : Fields → Bool
own_keys_allowed no_fields = true
own_keys_allowed (entry k v fs) = not (is_forbidden_key k) && own_keys_allowed fs

stack_allowed : List Json → Bool
stack_allowed [] = true
stack_allowed (x ∷ xs) = keys_allowed x && stack_allowed xs

stack_size : List Json → ℕ
stack_size [] = 0
stack_size (x ∷ xs) = size x + stack_size xs

and_swap : (a b c : Bool) → (b && (a && c)) ≡ ((a && b) && c)
and_swap true true c = refl
and_swap true false c = refl
and_swap false true c = refl
and_swap false false c = refl

and_step :
    (n o p v f l : Bool) → (o && p) ≡ (f && (v && l)) → ((n && o) && p) ≡ ((n && (v && f)) && l)
and_step true o p v f l h = h ∙ and_swap v f l
and_step false o p v f l h = refl

stack_size-push_items :
    (xs : Items) (l : List Json) → stack_size (push_items xs l) ≡ size_items xs + stack_size l
unfolding push_items stack_size size
stack_size-push_items no_items l = omega arith
stack_size-push_items (item x xs) l = omega (arith, stack_size-push_items xs (x ∷ l))

stack_allowed-push_items :
    (xs : Items) (l : List Json)
    → stack_allowed (push_items xs l) ≡ (items_allowed xs && stack_allowed l)
unfolding push_items stack_allowed keys_allowed
stack_allowed-push_items no_items l = refl
stack_allowed-push_items (item x xs) l =
    stack_allowed-push_items xs (x ∷ l)
    ∙ and_swap (keys_allowed x) (items_allowed xs) (stack_allowed l)

-- What the loop over one dictionary's items leaves on the stack.
pushed : Fields → List Json → List Json
pushed no_fields l = l
pushed (entry k v fs) l = pushed fs (v ∷ l)

push_fields_lem :
    (fs : Fields) (l : List Json)
    → push_fields fs l ≡ (if own_keys_allowed fs then ok (pushed fs l) else err forbidden)
unfolding push_fields own_keys_allowed pushed
push_fields_lem no_fields l = refl
push_fields_lem (entry k v fs) l = ground (arith, push_fields_lem fs (v ∷ l))

stack_size-pushed :
    (fs : Fields) (l : List Json) → stack_size (pushed fs l) ≡ size_fields fs + stack_size l
unfolding pushed stack_size size
stack_size-pushed no_fields l = omega arith
stack_size-pushed (entry k v fs) l = omega (arith, stack_size-pushed fs (v ∷ l))

stack_allowed-pushed :
    (fs : Fields) (l : List Json)
    → (own_keys_allowed fs && stack_allowed (pushed fs l)) ≡ (fields_allowed fs && stack_allowed l)
unfolding pushed stack_allowed keys_allowed own_keys_allowed
stack_allowed-pushed no_fields l = refl
stack_allowed-pushed (entry k v fs) l =
    and_step (not (is_forbidden_key k)) _ _ (keys_allowed v) (fields_allowed fs) (stack_allowed l)
      (stack_allowed-pushed fs (v ∷ l))

abbrev pub verdict : Bool → Result (Unit {0})
verdict b = if b then ok tt else err forbidden

size-pos : (x : Json) → 1 ≤ size x
unfolding size
size-pos (list xs) = omega arith
size-pos _ = omega arith

scan_keys_lem :
    (fuel : ℕ) (l : List Json) → stack_size l ≤ fuel → scan_keys fuel l ≡ verdict (stack_allowed l)
unfolding scan_keys stack_size stack_allowed size keys_allowed
scan_keys_lem zero [] h = refl
scan_keys_lem zero (x ∷ l) h = absurd (omega (arith, size-pos x))
scan_keys_lem (suc fuel) [] h = refl
scan_keys_lem (suc fuel) (dict fs ∷ l) h = rw (push_fields_lem fs l) (
    ground
      (arith, stack_allowed-pushed fs l, stack_size-pushed fs l, scan_keys_lem fuel (pushed fs l)))
scan_keys_lem (suc fuel) (list xs ∷ l) h = ground (
  arith,
  stack_allowed-push_items xs l,
  stack_size-push_items xs l,
  scan_keys_lem fuel (push_items xs l),
)
scan_keys_lem (suc fuel) (x ∷ l) h = ground (arith, scan_keys_lem fuel l)

-- The loop over the stack ends, and refuses a value exactly when some dictionary inside it, at any
-- depth, has a forbidden key.
pub validate_keys-eq-keys_allowed :
    (m : Json) → validate_no_forbidden_metadata_keys m ≡ verdict (keys_allowed m)
unfolding validate_no_forbidden_metadata_keys stack_size stack_allowed
validate_keys-eq-keys_allowed m = ground (arith, scan_keys_lem (size m) (m ∷ []))
