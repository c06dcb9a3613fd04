-- ===== src/Tests/Audit.antt =====
-- The theorems of Audit at concrete inputs.
use fastapi_saas_template.Prelude.{◌≡◌, codes}
use fastapi_saas_template.Audit.Json.{Json, null, str, list, dict, no_items, item, no_fields, entry}
use fastapi_saas_template.Audit.Metadata.{validate_no_forbidden_metadata_keys}
use fastapi_saas_template.Audit.Metadata.KeyScan.{
  keys_allowed, verdict, validate_keys-eq-keys_allowed,
}

-- A secret three levels down.
abbrev nested : Json
nested = dict (
    entry (codes "items")
      (list
        (item null (item (dict (entry (codes "API-Key") (str (codes "x")) no_fields)) no_items)))
      no_fields)

validate_keys-eq-keys_allowed_example :
    validate_no_forbidden_metadata_keys nested ≡ verdict (keys_allowed nested)
validate_keys-eq-keys_allowed_example = validate_keys-eq-keys_allowed nested
