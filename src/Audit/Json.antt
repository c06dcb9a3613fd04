-- ===== src/Audit/Json.antt =====
-- JSON values as `AuditEventService` sees them (backend/app/audit/services/audit_events.py).
-- `uuid` is the text of a UUID, 36 characters; `opaque` is a value of an unsupported type.
use fastapi_saas_template.Prelude.{ℕ, Bool, Text, ◌+◌}

mutual
  pub data Json : Type 0 where
    null opaque : Json
    bool : Bool → Json
    num : ℕ → Json
    str : Text → Json
    uuid : ℕ → Json
    list : Items → Json
    dict : Fields → Json

  pub data Items : Type 0 where
    no_items : Items
    item : Json → Items → Items

  pub data Fields : Type 0 where
    no_fields : Fields
    entry : Text → Json → Fields → Fields

-- The number of constructors, the fuel of the key scan.
unfoldable mutual
  pub size : Json → ℕ
  size (list xs) = 1 + size_items xs
  size (dict fs) = 1 + size_fields fs
  size _ = 1

  pub size_items : Items → ℕ
  size_items no_items = 0
  size_items (item x xs) = size x + size_items xs

  pub size_fields : Fields → ℕ
  size_fields no_fields = 0
  size_fields (entry k v fs) = size v + size_fields fs
