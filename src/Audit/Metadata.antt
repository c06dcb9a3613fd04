-- ===== src/Audit/Metadata.antt =====
-- `_validate_metadata_json` of backend/app/audit/services/audit_events.py.
pub mod KeyScan
use fastapi_saas_template.Prelude.{
  ℕ, zero, suc, ◌+◌, ◌/◌, Bool, true, false, List, [], ◌∷◌, ◌&&◌, ◌||◌, Option, none, some, Text,
  codes, text_eq, lower, any, ltb, leb, ◌==◌, if◌then◌else◌, map, ◌≡◌, arith,
}
use fastapi_saas_template.Errors.{Result, ok, err, value_error, ◌>>=◌, ◌>>◌, require}
use fastapi_saas_template.Audit.Json.{
  Json, null, opaque, bool, num, str, uuid, list, dict, Items, no_items, item, Fields, no_fields,
  entry, size, size_items, size_fields,
}

abbrev forbidden_keys : List Text
forbidden_keys =
    codes "token"
    ∷ codes "raw_token"
    ∷ codes "invite_token"
    ∷ codes "token_hash"
    ∷ codes "authorization"
    ∷ codes "password"
    ∷ codes "secret"
    ∷ codes "api_key"
    ∷ codes "headers"
    ∷ codes "cookie"
    ∷ codes "set_cookie"
    ∷ []

abbrev forbidden_markers : List Text
forbidden_markers =
    codes "token" ∷ codes "password" ∷ codes "secret" ∷ codes "authorization" ∷ codes "cookie" ∷ []

is_prefix : Text → Text → Bool
is_prefix [] t = true
is_prefix (c ∷ cs) [] = false
is_prefix (c ∷ cs) (d ∷ ds) = (c == d) && is_prefix cs ds

-- `marker in text`
contains : Text → Text → Bool
unfolding is_prefix
contains needle [] = is_prefix needle []
contains needle (c ∷ cs) = is_prefix needle (c ∷ cs) || contains needle cs

-- `key.lower().replace("-", "_")`
normalise_key : Text → Text
unfolding lower
normalise_key k = map (λ c. if c == b'-' then b'_' else c) (lower k)

unfoldable pub is_forbidden_key : Text → Bool
unfolding normalise_key contains text_eq any
is_forbidden_key k =
    any (text_eq (normalise_key k)) forbidden_keys
    || any (λ marker. contains marker (normalise_key k)) forbidden_markers

-- The loop over `current.items()`: every key is tested, then its value goes on the stack.
push_fields : Fields → List Json → Result (List Json)
push_fields no_fields stack = ok stack
push_fields (entry k v fs) stack =
    if is_forbidden_key k
    then err (value_error "Audit metadata contains forbidden keys")
    else push_fields fs (v ∷ stack)

-- `stack.extend(current)`
push_items : Items → List Json → List Json
push_items no_items stack = stack
push_items (item x xs) stack = push_items xs (x ∷ stack)

-- The `while stack` loop; the top of the stack is the head of the list.
scan_keys : ℕ → List Json → Result (Unit {0})
unfolding push_fields push_items
scan_keys zero [] = ok tt
scan_keys zero (x ∷ stack) = err (value_error "out of fuel")
scan_keys (suc fuel) [] = ok tt
scan_keys (suc fuel) (dict fs ∷ stack) = push_fields fs stack >>= scan_keys fuel
scan_keys (suc fuel) (list xs ∷ stack) = scan_keys fuel (push_items xs stack)
scan_keys (suc fuel) (x ∷ stack) = scan_keys fuel stack

unfoldable pub validate_no_forbidden_metadata_keys : Json → Result (Unit {0})
unfolding scan_keys size is_forbidden_key
validate_no_forbidden_metadata_keys metadata = scan_keys (size metadata) (metadata ∷ [])

abbrev max_of : ℕ → ℕ → ℕ
max_of a b = if ltb a b then b else a

unfoldable mutual
  pub calculate_json_depth : Json → Result ℕ
  calculate_json_depth (dict fs) = do d ← depth_fields fs; ok (1 + d)
  calculate_json_depth (list xs) = do d ← depth_items xs; ok (1 + d)
  calculate_json_depth opaque = err (value_error "Audit metadata contains unsupported value types")
  calculate_json_depth _ = ok 0

  pub depth_items : Items → Result ℕ
  depth_items no_items = ok 0
  depth_items (item x xs) = do d ← calculate_json_depth x; e ← depth_items xs; ok (max_of d e)

  pub depth_fields : Fields → Result ℕ
  depth_fields no_fields = ok 0
  depth_fields (entry k v fs) = do d ← calculate_json_depth v; e ← depth_fields fs; ok (max_of d e)

digits_size : ℕ → ℕ → ℕ
digits_size zero n = 1
digits_size (suc fuel) n = let rest = digits_size fuel (n / 10) in if ltb n 10 then 1 else 1 + rest

abbrev char_size : ℕ → ℕ
char_size c =
    if (c == 34) || ((c == 92) || ((leb 8 c && leb c 10) || ((c == 12) || (c == 13))))
    then 2
    else if ltb c 32
    then 6
    else 1

text_size : Text → ℕ
text_size [] = 2
text_size (c ∷ cs) = char_size c + text_size cs

-- `len(json.dumps(value, ensure_ascii=False).encode("utf-8"))`, with the separators `, ` and `: `.
unfoldable mutual
  unfolding digits_size text_size

  pub dumps_size : Json → ℕ
  dumps_size null = 4
  dumps_size opaque = 0
  dumps_size (bool true) = 4
  dumps_size (bool false) = 5
  dumps_size (num n) = digits_size n n
  dumps_size (str t) = text_size t
  dumps_size (uuid n) = 38
  dumps_size (list no_items) = 2
  dumps_size (list (item x xs)) = 2 + dumps_size x + tail_items xs
  dumps_size (dict no_fields) = 2
  dumps_size (dict (entry k v fs)) = 2 + text_size k + 2 + dumps_size v + tail_fields fs

  pub tail_items : Items → ℕ
  tail_items no_items = 0
  tail_items (item x xs) = 2 + dumps_size x + tail_items xs

  pub tail_fields : Fields → ℕ
  tail_fields no_fields = 0
  tail_fields (entry k v fs) = 2 + text_size k + 2 + dumps_size v + tail_fields fs

unfoldable pub validate_metadata_json : Option Json → Result (Option Json)
validate_metadata_json none = ok none
validate_metadata_json (some metadata) = do
  validate_no_forbidden_metadata_keys metadata
  depth ← calculate_json_depth metadata
  require (leb depth 3) (value_error "Audit metadata exceeds max nesting depth")
  require (leb (dumps_size metadata) 8192) (value_error "Audit metadata exceeds max size")
  ok (some metadata)

-- The validated metadata is the given metadata.
pub validate_metadata-same : (m n : Option Json) → validate_metadata_json m ≡ ok n → n ≡ m
unfolding validate_metadata_json
validate_metadata-same none n h = ground arith
validate_metadata-same (some m) n h = ground arith
